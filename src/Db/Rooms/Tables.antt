-- ===== src/Db/Rooms/Tables.antt =====
-- The tables of rooms of dino/db/redis.py: the rooms of each channel, the channel of each room and
-- its name; and how the calls that change them end.
use dino.Prelude.{Bool, true, ◌&&◌, none, some, if◌then◌else◌, ◌≡◌, arith, Option-cases, inl, inr}
use dino.Prelude.Text.{Text, ◌==◌}
use dino.Redis.{Key, Client, hget}
use dino.Db.{Database}
use dino.Db.Roles.{add_room_role, get_room_name}
use dino.Db.Roles.Calls.{set_owner}
use dino.Db.Rooms.{need_known_channel, room_exists, create_room, rename_room, remove_room}
use dino.Db.Rooms.Names.{
  can_create, can_rename, can_remove, create_room-rooms, rename_room-rooms, remove_room-rooms,
}

module _ {S : Type 0} ⦃R : Client S⦄ where
  -- A room of a channel has that channel, and the name that it has there.
  pub record RoomsFiled (db : Database S) : Type 0 where
    pub channel :
        (c r n : Text)
        → hget (Key.rooms c) r db.redis ≡ some n
        → hget Key.channel_for_rooms r db.redis ≡ some c
    pub name :
        (c r n : Text)
        → hget (Key.rooms c) r db.redis ≡ some n
        → hget Key.room_name_for_id r db.redis ≡ some n

  module _ (channel_id room_id room_name user_id user_name : Text) (ephemeral : Bool)
      (db : Database S) where
    create_room-tables :
        (r : Text)
        → (hget Key.channel_for_rooms r
              (create_room room_name room_id channel_id user_id user_name ephemeral db).1.redis
            ≡ (if can_create room_name room_id channel_id db && r == room_id
                then some channel_id
                else hget Key.channel_for_rooms r db.redis))
          × (hget Key.room_name_for_id r
                (create_room room_name room_id channel_id user_id user_name ephemeral db).1.redis
              ≡ (if can_create room_name room_id channel_id db && r == room_id
                  then some room_name
                  else hget Key.room_name_for_id r db.redis))
    unfolding create_room need_known_channel set_owner add_room_role get_room_name
    create_room-tables r = (grind arith, grind arith)

    rename_room-tables :
        (r : Text)
        → (hget Key.channel_for_rooms r (rename_room channel_id room_id room_name db).1.redis
            ≡ hget Key.channel_for_rooms r db.redis)
          × (hget Key.room_name_for_id r (rename_room channel_id room_id room_name db).1.redis ≡ (
              if can_rename channel_id room_id room_name db && r == room_id
              then some room_name
              else hget Key.room_name_for_id r db.redis))
    unfolding rename_room need_known_channel
    rename_room-tables r = (grind arith, grind arith)

    remove_room-tables :
        (r : Text)
        → (hget Key.channel_for_rooms r (remove_room channel_id room_id db).1.redis ≡ (
            if can_remove channel_id room_id db && r == room_id
            then none
            else hget Key.channel_for_rooms r db.redis))
          × (hget Key.room_name_for_id r (remove_room channel_id room_id db).1.redis ≡ (
              if can_remove channel_id room_id db && r == room_id
              then none
              else hget Key.room_name_for_id r db.redis))
    unfolding remove_room need_known_channel
    remove_room-tables r = (grind arith, grind arith)

    -- If every room that a channel lists is filed under that channel and its name, that is still so
    -- after a room is created whose id no channel has, whether the call succeeds or raises.
    create_room-RoomsFiled :
        RoomsFiled db
        → hget Key.channel_for_rooms room_id db.redis ≡ none
        → RoomsFiled (create_room room_name room_id channel_id user_id user_name ephemeral db).1
    create_room-RoomsFiled filed fresh =
        let rooms = create_room-rooms room_name room_id channel_id user_id user_name ephemeral db in
        record {
          channel = λ c r n h.
              ground (arith, h, fresh, rooms c r, (create_room-tables r).0, filed.channel c r n);
          name = λ c r n h. ground (
            arith,
            h,
            fresh,
            rooms c r,
            (create_room-tables r).1,
            filed.channel c r n,
            filed.name c r n,
          );
        }

    -- A room that exists in a channel has it, and no other channel lists the room.
    filed_under :
        RoomsFiled db
        → room_exists channel_id room_id db ≡ true
        → hget Key.channel_for_rooms room_id db.redis ≡ some channel_id
    unfolding room_exists
    filed_under filed known = elim (Option-cases (hget (Key.rooms channel_id) room_id db.redis)) [
      | inl missing ↦ ground (arith, known, missing)
      | inr (old, found) ↦ filed.channel channel_id room_id old found
    ]

    listed_once :
        RoomsFiled db
        → (c n : Text) → room_exists channel_id room_id db ≡ true
        → hget (Key.rooms c) room_id db.redis ≡ some n
        → c ≡ channel_id
    listed_once filed c n known h =
        ground (arith, filed.channel c room_id n h, filed_under filed known)

    -- If every room that a channel lists is filed under that channel and its name, that is still so
    -- after a room is renamed and after one is removed, whether the call succeeds or raises.
    rename_remove-RoomsFiled :
        RoomsFiled db
        → RoomsFiled (rename_room channel_id room_id room_name db).1
          × RoomsFiled (remove_room channel_id room_id db).1
    rename_remove-RoomsFiled filed = (
      record {
        channel = λ c r n h. ground (
          arith,
          h,
          rename_room-rooms channel_id room_id room_name db c r,
          (rename_room-tables r).0,
          filed.channel c r n,
          filed_under filed,
        );
        name = λ c r n h. ground (
          arith,
          h,
          rename_room-rooms channel_id room_id room_name db c r,
          (rename_room-tables r).1,
          filed.name c r n,
          listed_once filed c n,
        );
      },
      record {
        channel = λ c r n h. ground (
          arith,
          h,
          remove_room-rooms channel_id room_id db c r,
          (remove_room-tables r).0,
          filed.channel c r n,
          listed_once filed c n,
        );
        name = λ c r n h. ground (
          arith,
          h,
          remove_room-rooms channel_id room_id db c r,
          (remove_room-tables r).1,
          filed.name c r n,
          listed_once filed c n,
        );
      },
    )

  -- If every room that a channel lists is filed under that channel and its name, that is still so
  -- after a room is created whose id no channel has, after one is renamed and after one is removed,
  -- whether the call succeeds or raises.
  pub rooms-RoomsFiled :
      (room_name new_id room_id channel_id user_id user_name : Text) (ephemeral : Bool)
      → (db : Database S) → RoomsFiled db
      → hget Key.channel_for_rooms new_id db.redis ≡ none
      → RoomsFiled (create_room room_name new_id channel_id user_id user_name ephemeral db).1
        × RoomsFiled (rename_room channel_id room_id room_name db).1
        × RoomsFiled (remove_room channel_id room_id db).1
  rooms-RoomsFiled room_name new_id room_id channel_id user_id user_name ephemeral db filed fresh =
      let kept =
        rename_remove-RoomsFiled channel_id room_id room_name user_id user_name ephemeral db
          filed in
      (
        create_room-RoomsFiled channel_id new_id room_name user_id user_name ephemeral db filed
            fresh,
        kept.0,
        kept.1,
      )
