-- ===== src/Db/Rooms/Names.antt =====
-- The names of the rooms of a channel, of dino/db/redis.py, differ by more than their case.
use dino.Prelude.{
  sym, Bool, true, false, not, ◌&&◌, Option, none, some, [], ◌∷◌, if◌then◌else◌, ◌≡◌, refl, arith,
}
use dino.Prelude.Text.{Text, ◌==◌, lower, is_blank}
use dino.Prelude.Dict.{Dict, lookup, values}
use dino.Redis.{Key, Client, hget, hgetall}
use dino.Db.{Database}
use dino.Db.Roles.{add_room_role, get_room_name}
use dino.Db.Roles.Calls.{set_owner}
use dino.Db.Rooms.{
  is_known_channel, need_known_channel, room_exists, name_exists, room_name_exists, create_room,
  rename_room, remove_room,
}

abbrev pub has_name : Text → Option Text → Bool
has_name name none = false
has_name name (some n) = lower name == lower n

name_exists-lookup :
    (name key : Text) (d : Dict Text)
    → name_exists name (values d) ≡ false
    → has_name name (lookup key d) ≡ false
unfolding name_exists lookup
name_exists-lookup name key [] fresh = refl
name_exists-lookup name key ((k, n) ∷ d) fresh =
    grind (arith, name_exists-lookup name key d (grind arith), fresh)

module _ {S : Type 0} ⦃R : Client S⦄ where
  -- A name that `room_name_exists` does not find is, in no case, the name of a room of the channel.
  pub room_name_exists_sound :
      (channel_id room_name : Text) (db : Database S) (room_id : Text)
      → room_name_exists channel_id room_name db ≡ false
      → has_name room_name (hget (Key.rooms channel_id) room_id db.redis) ≡ false
  unfolding room_name_exists
  room_name_exists_sound channel_id room_name db room_id fresh =
      rw (sym (R.hgetall_law (Key.rooms channel_id) room_id db.redis))
        (name_exists-lookup room_name room_id (hgetall (Key.rooms channel_id) db.redis) fresh)

  -- A room is created.
  abbrev pub can_create : Text → Text → Text → Database S → Bool
  can_create room_name room_id channel_id db =
      is_known_channel channel_id db
      && not (is_blank room_name)
      && not (room_exists channel_id room_id db)
      && not (room_name_exists channel_id room_name db)

  abbrev pub can_rename : Text → Text → Text → Database S → Bool
  can_rename channel_id room_id room_name db =
      is_known_channel channel_id db
      && not (is_blank room_name)
      && room_exists channel_id room_id db
      && not (room_name_exists channel_id room_name db)

  abbrev pub can_remove : Text → Text → Database S → Bool
  can_remove channel_id room_id db =
      room_exists channel_id room_id db && is_known_channel channel_id db

  -- What a call leaves of the rooms that the channels list: all as they were, or one entry changed.
  pub create_room-rooms :
      (room_name room_id channel_id user_id user_name : Text) (ephemeral : Bool) (db : Database S)
      → (c r : Text)
      → hget
          (Key.rooms c)
          r
          (create_room room_name room_id channel_id user_id user_name ephemeral db).1.redis
        ≡ (if can_create room_name room_id channel_id db && c == channel_id && r == room_id
            then some room_name
            else hget (Key.rooms c) r db.redis)
  unfolding create_room need_known_channel set_owner add_room_role get_room_name
  create_room-rooms room_name room_id channel_id user_id user_name ephemeral db c r = grind arith

  pub rename_room-rooms :
      (channel_id room_id room_name : Text) (db : Database S) (c r : Text)
      → hget (Key.rooms c) r (rename_room channel_id room_id room_name db).1.redis ≡ (
          if can_rename channel_id room_id room_name db && c == channel_id && r == room_id
          then some room_name
          else hget (Key.rooms c) r db.redis)
  unfolding rename_room need_known_channel
  rename_room-rooms channel_id room_id room_name db c r = grind arith

  pub remove_room-rooms :
      (channel_id room_id : Text) (db : Database S) (c r : Text)
      → hget (Key.rooms c) r (remove_room channel_id room_id db).1.redis ≡ (
          if can_remove channel_id room_id db && c == channel_id && r == room_id
          then none
          else hget (Key.rooms c) r db.redis)
  unfolding remove_room need_known_channel
  remove_room-rooms channel_id room_id db c r = grind arith

  -- Two rooms of a channel whose names are the same up to case are one.
  abbrev pub NamesDiffer : Database S → Type 0
  NamesDiffer db =
      (channel_id r s m n : Text)
      → hget (Key.rooms channel_id) r db.redis ≡ some m
      → hget (Key.rooms channel_id) s db.redis ≡ some n
      → lower m ≡ lower n
      → r ≡ s

  -- At most one entry is set, to a name that is new in its channel.
  set_NamesDiffer :
      (b : Bool) (channel_id room_id name : Text) (db db' : Database S)
      → ((c r : Text)
          → hget (Key.rooms c) r db'.redis ≡ (
              if b && c == channel_id && r == room_id
              then some name
              else hget (Key.rooms c) r db.redis))
      → (b ≡ true → room_name_exists channel_id name db ≡ false)
      → NamesDiffer db
      → NamesDiffer db'
  set_NamesDiffer b channel_id room_id name db db' entry fresh differ c r s m n first second same =
      grind (
        arith,
        entry c r,
        entry c s,
        first,
        second,
        same,
        differ c r s m n,
        room_name_exists_sound channel_id name db r,
        room_name_exists_sound channel_id name db s,
        fresh,
      )

  -- Creating, renaming and removing a room, whether the call succeeds or raises, keeps it that no
  -- two rooms of a channel have the same name up to case.
  pub rooms-NamesDiffer :
      (channel_id room_id room_name user_id user_name : Text) (ephemeral : Bool) (db : Database S)
      → NamesDiffer db
      → NamesDiffer (create_room room_name room_id channel_id user_id user_name ephemeral db).1
        × NamesDiffer (rename_room channel_id room_id room_name db).1
        × NamesDiffer (remove_room channel_id room_id db).1
  rooms-NamesDiffer channel_id room_id room_name user_id user_name ephemeral db differ = (
    set_NamesDiffer (can_create room_name room_id channel_id db) channel_id room_id room_name db
        (create_room room_name room_id channel_id user_id user_name ephemeral db).1
        (create_room-rooms room_name room_id channel_id user_id user_name ephemeral db)
        (λ can. grind (arith, can)) differ,
    set_NamesDiffer (can_rename channel_id room_id room_name db) channel_id room_id room_name db
        (rename_room channel_id room_id room_name db).1
        (rename_room-rooms channel_id room_id room_name db) (λ can. grind (arith, can)) differ,
    (λ c r s m n first second same. grind (
      arith,
      remove_room-rooms channel_id room_id db c r,
      remove_room-rooms channel_id room_id db c s,
      first,
      second,
      same,
      differ c r s m n,
    )),
  )
