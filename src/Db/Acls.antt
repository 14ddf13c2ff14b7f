-- ===== src/Db/Acls.antt =====
-- How DatabaseRedis of dino/db/redis.py stores the acls of a channel or a room: a hash whose fields
-- are an action and a type of acl with a bar in between. A hash has each field once.
pub mod Stored
pub mod All
use dino.Prelude.{ℕ, Bool, true, false, not, Option, none, some, List, [], ◌∷◌, ◌++◌, if◌then◌else◌}
use dino.Prelude.Text.{Text, ◌==◌, str, contains}
use dino.Prelude.Dict.{Dict, lookup, insert, erase}
use dino.Prelude.Result.{Result, ok, err}
use dino.Acl.{Exception, key_error, Env}
use dino.Acl.Validators.{split_once}
use dino.Acl.Call.{new_acl}
use dino.Redis.{
  Key, SetKey, Client, hget, hgetall, hset, hmset, hdel, delete, sismember, sadd, srem, hexists,
  hvals,
}
use dino.Db.{
  Database, reads, writes, Action, pure, raise, gets, or_raise, ◌>>=◌, ◌>>◌, raise_if, modify,
  Error, no_such_room, invalid_api_action, invalid_acl_type, value_error, acl_exception,
}
use dino.Db.Roles.{get_room_name, get_channel_name, channel_for_room}
use dino.Db.Roles.Calls.{need_channel}
use dino.Db.Rooms.{room_exists}

-- ApiActions.all_api_actions
abbrev pub all_api_actions : List Text
all_api_actions =
    str "join"
    ∷ str "autojoin"
    ∷ str "crossroom"
    ∷ str "message"
    ∷ str "kick"
    ∷ str "ban"
    ∷ str "list"
    ∷ str "history"
    ∷ str "setacl"
    ∷ str "create"
    ∷ str "whisper"
    ∷ []

-- '%s|%s' % (action, acl_type)
abbrev pub acl_key : Text → Text → Text
acl_key action acl_type = action ++ b'|' ∷ acl_type

abbrev pub valid_acl : Option (Result Exception (Unit {0})) → Result Error (Unit {0})
valid_acl none = err (acl_exception key_error)
valid_acl (some (ok _)) = ok tt
valid_acl (some (err e)) = err (acl_exception e)

-- The loop of `get_acls_in_..._for_action`; a field without a bar cannot be unpacked.
unfoldable pub acls_for : Text → Dict Text → Result Error (Dict Text)
acls_for action [] = ok []
acls_for action ((acl_key, acl_value) ∷ acls) =
    let rest = acls_for action acls in
    elim (split_once b'|' acl_key) [
      | none ↦ err value_error
      | some (acl_action, acl_type) ↦ elim rest [
        | err e ↦ err e
        | ok cleaned ↦
            ok (if acl_action == action then (acl_type, acl_value) ∷ cleaned else cleaned)
      ]
    ]

module _ (available : List Text) (depth : ℕ) (env : Env) where
  -- The loop of `add_acls_...`: every acl has to be of a known type and to validate.
  unfoldable pub new_acls : Text → Dict Text → Result Error (Dict Text)
  new_acls action [] = ok []
  new_acls action ((acl_type, acl_value) ∷ acls) =
      let rest = new_acls action acls in
      if not (contains available acl_type)
      then err invalid_acl_type
      else elim (valid_acl (elim (lookup acl_type env.validators) [
        | none ↦ none
        | some v ↦ some (new_acl depth env v acl_value)
      ])) [
        | err e ↦ err e
        | ok _ ↦ elim rest [
          | err e ↦ err e
          | ok new ↦ ok ((acl_key action acl_type, acl_value) ∷ new)
        ]
      ]

module _ {S : Type 0} ⦃R : Client S⦄ where
  -- `need_action`: raise InvalidApiActionException
  abbrev pub need_action : Text → Action S (Unit {0})
  need_action action = raise_if (not (contains all_api_actions action)) invalid_api_action

  -- delete_acl_in_room_for_action
  unfoldable pub delete_acl_in_room_for_action : Text → Text → Text → Action S (Unit {0})
  delete_acl_in_room_for_action room_id acl_type action = do
    _ ← get_room_name room_id
    _ ← channel_for_room room_id
    _ ← need_action action
    writes (hdel (Key.room_acl room_id) (acl_key action acl_type))

  -- delete_acl_in_channel_for_action
  unfoldable pub delete_acl_in_channel_for_action : Text → Text → Text → Action S (Unit {0})
  delete_acl_in_channel_for_action channel_id acl_type action = do
    _ ← need_channel channel_id
    _ ← need_action action
    writes (hdel (Key.channel_acl channel_id) (acl_key action acl_type))

  -- `if len(new_acls) == 0: return`, and `hmset`
  abbrev pub store_acls : Key → Dict Text → Database S → Database S
  store_acls key [] db = db
  store_acls key (acl ∷ acls) db = record db { redis = hmset key (acl ∷ acls) db.redis }

  -- get_acls_in_room_for_action
  unfoldable pub get_acls_in_room_for_action : Text → Text → Action S (Dict Text)
  get_acls_in_room_for_action room_id action = do
    _ ← get_room_name room_id
    _ ← channel_for_room room_id
    λ db. (acls_for action (hgetall (Key.room_acl room_id) db.redis), db)

  -- get_acls_in_channel_for_action
  unfoldable pub get_acls_in_channel_for_action : Text → Text → Action S (Dict Text)
  get_acls_in_channel_for_action channel_id action = do
    _ ← get_channel_name channel_id
    λ db. (acls_for action (hgetall (Key.channel_acl channel_id) db.redis), db)

  module _ (available : List Text) (depth : ℕ) (env : Env) where
    -- `new_acls`, as an action
    abbrev pub checked : Text → Dict Text → Action S (Dict Text)
    checked action acls db = (new_acls available depth env action acls, db)

    -- add_acls_in_channel_for_action
    unfoldable pub add_acls_in_channel_for_action : Text → Text → Dict Text → Action S (Unit {0})
    add_acls_in_channel_for_action channel_id action acls = do
      _ ← need_channel channel_id
      _ ← need_action action
      new ← checked action acls
      modify (store_acls (Key.channel_acl channel_id) new)

    -- add_acls_in_room_for_action; `channel_for_room` never returns None
    unfoldable pub add_acls_in_room_for_action : Text → Text → Dict Text → Action S (Unit {0})
    add_acls_in_room_for_action room_id action acls = do
      _ ← channel_for_room room_id
      _ ← need_action action
      new ← checked action acls
      modify (store_acls (Key.room_acl room_id) new)

    -- update_acl_in_room_for_action
    unfoldable pub update_acl_in_room_for_action :
        Text → Text → Text → Text → Text → Action S (Unit {0})
    update_acl_in_room_for_action channel_id room_id action acl_type acl_value = do
      _ ← need_channel channel_id
      known ← gets (room_exists channel_id room_id)
      _ ← raise_if (not known) no_such_room
      add_acls_in_room_for_action room_id action ((acl_type, acl_value) ∷ [])

    -- update_acl_in_channel_for_action
    unfoldable pub update_acl_in_channel_for_action :
        Text → Text → Text → Text → Action S (Unit {0})
    update_acl_in_channel_for_action channel_id action acl_type acl_value =
        add_acls_in_channel_for_action channel_id action ((acl_type, acl_value) ∷ [])
