-- ===== src/Db/Roles.antt =====
-- The roles of DatabaseRedis, dino/db/redis.py: the roles of a user are one text, separated by
-- commas, per channel, per room and globally. With them the names of channels and users, and the
-- channel of a room.
pub mod Calls
pub mod Grants
pub mod Laws
pub mod Refines
use dino.Prelude.{
  Bool, true, false, not, ◌||◌, Option, none, some, List, [], ◌∷◌, ◌++◌, if◌then◌else◌,
}
use dino.Prelude.Text.{Text, ◌==◌, str, is_blank, split, join, contains}
use dino.Prelude.Dict.{Dict, lookup, insert, erase, has}
use dino.Prelude.Result.{Result, ok, err}
use dino.Acl.{Exception, Roles}
use dino.Redis.{
  Key, SetKey, Client, hget, hgetall, hset, hmset, hdel, delete, sismember, sadd, srem, hexists,
  hvals,
}
use dino.Db.{
  Database, reads, writes, Action, pure, raise, gets, or_raise, ◌>>=◌, ◌>>◌, raise_if, modify,
  Error, no_such_channel, no_such_room, no_channel_found, no_such_user,
}

-- `role in roles.split(',')`, of what is stored
unfoldable pub has_role : Text → Option Text → Bool
has_role role none = false
has_role role (some roles) = contains (split b',' roles) role

-- `set(l)`, the elements before those of the second list
abbrev pub set_of : List Text → List Text
set_of [] = []
set_of (x ∷ l) = let rest = set_of l in if contains l x then rest else x ∷ rest

-- What `_add_..._role` stores.
unfoldable pub with_role : Text → Option Text → Text
with_role role none = role
with_role role (some roles) =
    let s = set_of (split b',' roles) in join b',' (if contains s role then s else s ++ role ∷ [])

abbrev pub discard : Text → List Text → List Text
discard x [] = []
discard x (y ∷ l) = let rest = discard x l in if x == y then rest else y ∷ rest

-- What `_remove_..._role` stores, if it stores anything.
unfoldable pub without_role : Text → Option Text → Option Text
without_role role none = none
without_role role (some roles) =
    let s = set_of (split b',' roles) in
    if contains s role then some (join b',' (discard role s)) else none

abbrev pub with_user : (Text → Bool) → Option Text → Bool
with_user f none = false
with_user f (some user_id) = f user_id

module _ {S : Type 0} ⦃R : Client S⦄ where
  -- get_user_name
  unfoldable pub get_user_name : Text → Action S Text
  get_user_name user_id db = or_raise (hget Key.user_names user_id db.redis) no_such_user db

  -- get_room_name
  unfoldable pub get_room_name : Text → Action S Text
  get_room_name room_id db = or_raise (hget Key.room_name_for_id room_id db.redis) no_such_room db

  -- get_channel_name
  unfoldable pub get_channel_name : Text → Action S Text
  get_channel_name channel_id db = elim (lookup channel_id db.cached_channel_name) [
    | some name ↦ pure name db
    | none ↦ elim (hget Key.channels channel_id db.redis) [
      | none ↦ raise no_such_channel db
      | some name ↦ (
        ok name,
        record db { cached_channel_name = insert channel_id name db.cached_channel_name },
      )
    ]
  ]

  -- channel_for_room
  unfoldable pub channel_for_room : Text → Action S Text
  unfolding get_room_name
  channel_for_room room_id db =
      if is_blank room_id
      then raise no_such_room db
      else elim (lookup room_id db.cached_channel_for_room) [
        | some channel_id ↦ pure channel_id db
        | none ↦
            (do
              _ ← get_room_name room_id
              channel_id ← reads (hget Key.channel_for_rooms room_id)
              found ← or_raise channel_id no_channel_found
              modify (λ r. record r {
                cached_channel_for_room = insert room_id found r.cached_channel_for_room;
              })
              pure found)
              db
      ]

  -- channel_exists
  unfoldable pub channel_exists : Text → Database S → Bool
  channel_exists channel_id db =
      if channel_id == [] then false else hexists Key.channels channel_id db.redis

  -- _has_role_in_room
  unfoldable pub has_role_in_room : Text → Text → Option Text → Database S → Bool
  has_role_in_room role room_id user_id db =
      with_user (λ u. has_role role (hget (Key.room_roles room_id) u db.redis)) user_id

  -- _has_role_in_channel
  unfoldable pub has_role_in_channel : Text → Text → Option Text → Database S → Bool
  has_role_in_channel role channel_id user_id db =
      with_user (λ u. has_role role (hget (Key.channel_roles channel_id) u db.redis)) user_id

  -- _has_global_role
  unfoldable pub has_global_role : Option Text → Text → Database S → Bool
  has_global_role user_id role db =
      with_user (λ u. has_role role (hget Key.global_roles u db.redis)) user_id

  -- _add_channel_role
  unfoldable pub add_channel_role : Text → Text → Text → Action S (Unit {0})
  add_channel_role role channel_id user_id = do
    _ ← get_channel_name channel_id
    modify (λ db. record db {
      redis =
          hset (Key.channel_roles channel_id) user_id
            (with_role role (hget (Key.channel_roles channel_id) user_id db.redis)) db.redis;
    })

  -- _add_room_role
  unfoldable pub add_room_role : Text → Text → Text → Action S (Unit {0})
  add_room_role role room_id user_id = do
    _ ← get_room_name room_id
    modify (λ db. record db {
      redis =
          hset (Key.room_roles room_id) user_id
            (with_role role (hget (Key.room_roles room_id) user_id db.redis)) db.redis;
    })

  -- _add_global_role
  unfoldable pub add_global_role : Text → Text → Action S (Unit {0})
  add_global_role user_id role = modify (λ db. record db {
    redis =
        hset Key.global_roles user_id (with_role role (hget Key.global_roles user_id db.redis))
          db.redis;
  })

  abbrev pub store_channel_role : Text → Text → Option Text → Database S → Database S
  store_channel_role channel_id user_id none db = db
  store_channel_role channel_id user_id (some roles) db = record db {
    redis = hset (Key.channel_roles channel_id) user_id roles db.redis;
  }

  -- _remove_channel_role
  unfoldable pub remove_channel_role : Text → Text → Text → Action S (Unit {0})
  remove_channel_role role channel_id user_id = modify (λ db.
      store_channel_role channel_id user_id
        (without_role role (hget (Key.channel_roles channel_id) user_id db.redis)) db)

  abbrev pub store_room_role : Text → Text → Option Text → Database S → Database S
  store_room_role room_id user_id none db = db
  store_room_role room_id user_id (some roles) db = record db {
    redis = hset (Key.room_roles room_id) user_id roles db.redis;
  }

  -- _remove_room_role
  unfoldable pub remove_room_role : Text → Text → Text → Action S (Unit {0})
  remove_room_role role room_id user_id = modify (λ db.
      store_room_role room_id user_id
        (without_role role (hget (Key.room_roles room_id) user_id db.redis)) db)

  abbrev pub store_global_role : Text → Option Text → Database S → Database S
  store_global_role user_id none db = db
  store_global_role user_id (some roles) db = record db {
    redis = hset Key.global_roles user_id roles db.redis;
  }

  -- _remove_global_role
  unfoldable pub remove_global_role : Text → Text → Action S (Unit {0})
  remove_global_role user_id role = modify (λ db.
      store_global_role user_id (without_role role (hget Key.global_roles user_id db.redis)) db)
