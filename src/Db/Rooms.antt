-- ===== src/Db/Rooms.antt =====
-- Channels, rooms and who is in them: DatabaseRedis of dino/db/redis.py.
pub mod Listing
pub mod Members
pub mod Names
pub mod Tables
use dino.Prelude.{
  ℕ, Bool, true, false, not, ◌&&◌, ◌||◌, Option, none, some, List, [], ◌∷◌, ◌++◌, if◌then◌else◌,
}
use dino.Prelude.Text.{Text, ◌==◌, str, is_blank, lower, contains}
use dino.Prelude.Dict.{Dict, lookup, insert, erase, has, values}
use dino.Prelude.Result.{Result, ok, err}
use dino.Redis.{
  Key, SetKey, Client, hget, hgetall, hset, hmset, hdel, delete, sismember, sadd, srem, hexists,
  hvals,
}
use dino.Db.{
  Database, reads, writes, Action, pure, raise, gets, or_raise, ◌>>=◌, ◌>>◌, raise_if, modify,
  Error, no_such_channel, no_such_room, no_channel_found, no_such_user, channel_exists_already,
  empty_channel_name, channel_name_exists_already, room_exists_already, empty_room_name,
  room_name_exists_already, empty_user_name, empty_user_id, user_exists_already,
}
use dino.Db.Roles.{get_user_name, get_room_name, get_channel_name, channel_for_room, channel_exists}
use dino.Db.Roles.Calls.{need_channel, set_owner_channel, set_owner}

-- A name is among those of a hash, whatever its case.
unfoldable pub name_exists : Text → List Text → Bool
name_exists name [] = false
name_exists name (existing ∷ names) = lower name == lower existing || name_exists name names

module _ {S : Type 0} ⦃R : Client S⦄ where
  -- room_exists
  unfoldable pub room_exists : Text → Text → Database S → Bool
  room_exists channel_id room_id db = hexists (Key.rooms channel_id) room_id db.redis

  -- room_name_exists
  unfoldable pub room_name_exists : Text → Text → Database S → Bool
  room_name_exists channel_id room_name db =
      name_exists room_name (hvals (Key.rooms channel_id) db.redis)

  -- channel_name_exists
  unfoldable pub channel_name_exists : Text → Database S → Bool
  channel_name_exists channel_name db = name_exists channel_name (hvals Key.channels db.redis)

  -- create_user
  unfoldable pub create_user : Text → Text → Action S (Unit {0})
  create_user user_id user_name = do
    _ ← raise_if (is_blank user_name) empty_user_name
    _ ← raise_if (is_blank user_id) empty_user_id
    taken ← reads (hexists Key.user_names user_id)
    _ ← raise_if taken user_exists_already
    _ ← writes (hset (Key.auth user_id) (str "user_id") user_id)
    _ ← writes (hset (Key.auth user_id) (str "user_name") user_name)
    writes (hset Key.user_names user_id user_name)

  -- set_user_name
  unfoldable pub set_user_name : Text → Text → Action S (Unit {0})
  set_user_name user_id user_name = do
    _ ← writes (hset (Key.auth user_id) (str "user_name") user_name)
    writes (hset Key.user_names user_id user_name)

  -- room_contains
  unfoldable pub room_contains : Text → Text → Action S Bool
  room_contains room_id user_id = do
    _ ← get_room_name room_id
    _ ← channel_for_room room_id
    reads (hexists (Key.users_in_room room_id) user_id)

  -- users_in_room
  unfoldable pub users_in_room : Text → Action S (Dict Text)
  users_in_room room_id db = elim (hget Key.room_name_for_id room_id db.redis) [
    | none ↦ pure [] db
    | some _ ↦ (channel_for_room room_id >>= λ _. reads (hgetall (Key.users_in_room room_id))) db
  ]

  -- rooms_for_user
  unfoldable pub rooms_for_user : Text → Action S (Dict Text)
  rooms_for_user user_id = reads (hgetall (Key.rooms_for_user user_id))

  -- leave_room, which is also kick_user
  unfoldable pub leave_room : Text → Text → Action S (Unit {0})
  leave_room user_id room_id = do
    _ ← get_room_name room_id
    _ ← writes (hdel (Key.users_in_room room_id) user_id)
    writes (hdel (Key.rooms_for_user user_id) room_id)

  -- join_room
  unfoldable pub join_room : Text → Text → Text → Text → Action S (Unit {0})
  join_room user_id user_name room_id room_name = do
    _ ← writes (hset (Key.rooms_for_user user_id) room_id room_name)
    writes (hset (Key.users_in_room room_id) user_id user_name)

  -- remove_current_rooms_for_user
  unfoldable pub remove_current_rooms_for_user : Text → Action S (Unit {0})
  remove_current_rooms_for_user user_id = writes (delete (Key.rooms_for_user user_id))

  -- create_channel
  unfoldable pub create_channel : Text → Text → Text → Action S (Unit {0})
  create_channel channel_name channel_id user_id = do
    known ← gets (channel_exists channel_id)
    _ ← raise_if known channel_exists_already
    _ ← raise_if (is_blank channel_name) empty_channel_name
    taken ← gets (channel_name_exists channel_name)
    _ ← raise_if taken channel_name_exists_already
    _ ← modify (λ db. record db {
      cached_channel_exists = insert channel_id (str "1") db.cached_channel_exists;
    })
    _ ← writes (hset Key.channels channel_id channel_name)
    set_owner_channel channel_id user_id

  -- The channel is known to the cache or to Redis.
  abbrev pub is_known_channel : Text → Database S → Bool
  is_known_channel channel_id db =
      has channel_id db.cached_channel_exists || channel_exists channel_id db

  -- NoSuchChannelException is raised for any other.
  unfoldable pub need_known_channel : Text → Action S (Unit {0})
  need_known_channel channel_id db =
      raise_if (not (is_known_channel channel_id db)) no_such_channel db

  -- create_room; an ephemeral room is put among those that are not.
  unfoldable pub create_room : Text → Text → Text → Text → Text → Bool → Action S (Unit {0})
  create_room room_name room_id channel_id user_id user_name ephemeral = do
    _ ← need_known_channel channel_id
    _ ← raise_if (is_blank room_name) empty_room_name
    known ← gets (room_exists channel_id room_id)
    _ ← raise_if known room_exists_already
    taken ← gets (room_name_exists channel_id room_name)
    _ ← raise_if taken room_name_exists_already
    _ ← writes (λ s. if ephemeral then sadd SetKey.non_ephemeral_rooms room_id s else s)
    _ ← writes (hset Key.room_name_for_id room_id room_name)
    _ ← writes (hset (Key.rooms channel_id) room_id room_name)
    _ ← writes (hset Key.channel_for_rooms room_id channel_id)
    _ ← writes (hset Key.user_names user_id user_name)
    set_owner room_id user_id

  -- rename_channel; `set_channel_name` is the cache's.
  unfoldable pub rename_channel : Text → Text → Action S (Unit {0})
  rename_channel channel_id channel_name = do
    _ ← get_channel_name channel_id
    taken ← gets (channel_name_exists channel_name)
    _ ← raise_if taken channel_name_exists_already
    _ ← raise_if (is_blank channel_name) empty_channel_name
    _ ← writes (hset Key.channels channel_id channel_name)
    modify (λ db. record db {
      cached_channel_name = insert channel_id channel_name db.cached_channel_name;
    })

  -- rename_room
  unfoldable pub rename_room : Text → Text → Text → Action S (Unit {0})
  rename_room channel_id room_id room_name = do
    _ ← need_known_channel channel_id
    _ ← raise_if (is_blank room_name) empty_room_name
    known ← gets (room_exists channel_id room_id)
    _ ← raise_if (not known) no_such_room
    taken ← gets (room_name_exists channel_id room_name)
    _ ← raise_if taken room_name_exists_already
    _ ← writes (hset Key.room_name_for_id room_id room_name)
    writes (hset (Key.rooms channel_id) room_id room_name)

  -- remove_room
  unfoldable pub remove_room : Text → Text → Action S (Unit {0})
  remove_room channel_id room_id = do
    known ← gets (room_exists channel_id room_id)
    _ ← raise_if (not known) no_such_room
    _ ← need_known_channel channel_id
    _ ← writes (srem SetKey.non_ephemeral_rooms room_id)
    _ ← writes (hdel Key.room_name_for_id room_id)
    _ ← writes (delete (Key.room_roles room_id))
    _ ← writes (hdel (Key.rooms channel_id) room_id)
    writes (hdel Key.channel_for_rooms room_id)
