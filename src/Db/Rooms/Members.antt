-- ===== src/Db/Rooms/Members.antt =====
-- Who is in which room, of dino/db/redis.py: two hashes that say the same.
use dino.Prelude.{Bool, not, ◌&&◌, ◌||◌, ◌≡◌, arith}
use dino.Prelude.Text.{Text, ◌==◌}
use dino.Redis.{Key, Client, hexists}
use dino.Db.{Database}
use dino.Db.Roles.{get_room_name}
use dino.Db.Rooms.{join_room, leave_room}

module _ {S : Type 0} ⦃R : Client S⦄ where
  -- Whether the hash of the room has the user, and whether that of the user has the room.
  abbrev pub in_room : Text → Text → Database S → Bool
  in_room user_id room_id db = hexists (Key.users_in_room room_id) user_id db.redis

  abbrev pub has_joined : Text → Text → Database S → Bool
  has_joined user_id room_id db = hexists (Key.rooms_for_user user_id) room_id db.redis

  -- The two hashes agree.
  abbrev pub MembersAgree : Database S → Type 0
  MembersAgree db =
      (user_id room_id : Text) → in_room user_id room_id db ≡ has_joined user_id room_id db

  module _ (user_id room_id : Text) where
    -- Joining a room, which never fails, puts the user into it and nobody else anywhere.
    pub in_room-join_room :
        (user_name room_name : Text) (db : Database S) (u r : Text)
        → in_room u r (join_room user_id user_name room_id room_name db).1
          ≡ ((r == room_id && u == user_id) || in_room u r db)
    unfolding join_room
    in_room-join_room user_name room_name db u r = grind arith

    has_joined-join_room :
        (user_name room_name : Text) (db : Database S) (u r : Text)
        → has_joined u r (join_room user_id user_name room_id room_name db).1
          ≡ ((r == room_id && u == user_id) || has_joined u r db)
    unfolding join_room
    has_joined-join_room user_name room_name db u r = grind arith

    -- Leaving a room takes the user out of it and nobody else from anywhere; from a room without a
    -- name nobody is taken.
    pub in_room-leave_room :
        (db : Database S) (u r : Text)
        → in_room u r (leave_room user_id room_id db).1 ≡ (
            not (hexists Key.room_name_for_id room_id db.redis && (r == room_id && u == user_id))
            && in_room u r db)
    unfolding leave_room get_room_name
    in_room-leave_room db u r = grind arith

    has_joined-leave_room :
        (db : Database S) (u r : Text)
        → has_joined u r (leave_room user_id room_id db).1 ≡ (
            not (hexists Key.room_name_for_id room_id db.redis && (r == room_id && u == user_id))
            && has_joined u r db)
    unfolding leave_room get_room_name
    has_joined-leave_room db u r = grind arith

    -- If the hash of every room and that of every user agree about who is where, they still do after
    -- a join and after leaving, also if leaving raises.
    pub join_leave-MembersAgree :
        (user_name room_name : Text) (db : Database S)
        → MembersAgree db
        → MembersAgree (join_room user_id user_name room_id room_name db).1
          × MembersAgree (leave_room user_id room_id db).1
    join_leave-MembersAgree user_name room_name db agree = (
      (λ u r. grind (
        arith,
        in_room-join_room user_name room_name db u r,
        has_joined-join_room user_name room_name db u r,
        agree u r,
      )),
      (λ u r. grind (arith, in_room-leave_room db u r, has_joined-leave_room db u r, agree u r)),
    )
