-- ===== src/Db/Users.antt =====
-- Sessions, read times and roles of users, and the lists of banned users, of DatabaseRedis in
-- dino/db/redis.py.
use dino.Prelude.{ℕ, not, Option, none, some, List, [], ◌∷◌, if◌then◌else◌}
use dino.Prelude.Text.{Text, is_blank, split, contains}
use dino.Prelude.Dict.{Dict, lookup, insert}
use dino.Prelude.Int.{ℤ, pos, leb_ℤ}
use dino.Generic.{parse_int}
use dino.Generic.Decimal.{show}
use dino.Redis.{Key, Client, hget, hgetall, hset, hdel}
use dino.Db.{
  Database, reads, writes, Action, pure, raise, or_raise, ◌>>=◌, ◌>>◌, raise_if, modify,
  empty_user_id, value_error,
}
use dino.Db.Roles.{get_user_name, get_room_name, channel_for_room}
use dino.Db.Bans.{split_max}

abbrev pub as_list : Option Text → List Text
as_list none = []
as_list (some sid) = sid ∷ []

-- An entry of a list of banned users.
pub record Banned : Type 0 where
  pub name : Text
  pub duration : Text
  pub timestamp : Text

-- The result of `get_user_roles`.
pub record UserRoles : Type 0 where
  pub globally : List Text
  pub channel : Dict (List Text)
  pub room : Dict (List Text)

abbrev pub put_roles : Text → Option Text → Dict (List Text) → Dict (List Text)
put_roles key none d = d
put_roles key (some roles) d = insert key (split b',' roles) d

abbrev pub roles_or_none : Option Text → List Text
roles_or_none none = []
roles_or_none (some roles) = split b',' roles

module _ {S : Type 0} ⦃R : Client S⦄ where
  -- add_sid_for_user
  unfoldable pub add_sid_for_user : Text → Text → Action S (Unit {0})
  add_sid_for_user user_id sid = do
    _ ← raise_if (is_blank user_id) empty_user_id
    writes (hset Key.sid_for_user_id user_id sid)

  -- reset_sids_for_user
  unfoldable pub reset_sids_for_user : Text → Action S (Unit {0})
  reset_sids_for_user user_id = do
    _ ← raise_if (is_blank user_id) empty_user_id
    writes (hdel Key.sid_for_user_id user_id)

  -- remove_sid_for_user; the sid is not read
  unfoldable pub remove_sid_for_user : Text → Text → Action S (Unit {0})
  remove_sid_for_user user_id sid = reset_sids_for_user user_id

  -- get_sids_for_user
  unfoldable pub get_sids_for_user : Text → Action S (List Text)
  get_sids_for_user user_id = do
    _ ← raise_if (is_blank user_id) empty_user_id
    reads (λ s. as_list (hget Key.sid_for_user_id user_id s))

  -- The loop of `update_last_read_for`.
  abbrev pub read_by : Text → ℕ → List Text → Database S → Database S
  read_by room_id time_stamp [] db = db
  read_by room_id time_stamp (user_id ∷ users) db =
      read_by room_id time_stamp users
        (record db { redis = hset (Key.last_read room_id) user_id (show time_stamp) db.redis })

  -- update_last_read_for
  unfoldable pub update_last_read_for : List Text → Text → ℕ → Action S (Unit {0})
  update_last_read_for users room_id time_stamp = do
    _ ← get_room_name room_id
    modify (read_by room_id time_stamp users)

  -- `int(str(timestamp, 'utf-8'))`, or None
  abbrev pub as_timestamp : Option Text → Action S (Option ℤ)
  as_timestamp none = pure none
  as_timestamp (some timestamp) = or_raise (parse_int timestamp) value_error >>= λ t. pure (some t)

  -- get_last_read_timestamp
  unfoldable pub get_last_read_timestamp : Text → Text → Action S (Option ℤ)
  get_last_read_timestamp room_id user_id = do
    timestamp ← reads (hget (Key.last_read room_id) user_id)
    as_timestamp timestamp

  -- The three parts of a ban, or a ValueError.
  abbrev pub three_parts : List Text → Action S (Text × Text)
  three_parts (duration ∷ timestamp ∷ _ ∷ []) = pure (duration, timestamp)
  three_parts _ = raise value_error

  -- The loop of `get_user_roles` over the rooms of the user, with the channels that were checked.
  unfoldable pub roles_of_rooms : Text → Dict Text → List Text → UserRoles → Action S UserRoles
  roles_of_rooms user_id [] checked output = pure output
  roles_of_rooms user_id ((room_id, _) ∷ rooms) checked output = do
    channel_id ← channel_for_room room_id
    room_roles ← reads (hget (Key.room_roles room_id) user_id)
    channel_roles ← reads (hget (Key.channel_roles channel_id) user_id)
    let known = contains checked channel_id
    roles_of_rooms user_id rooms (if known then checked else channel_id ∷ checked) (record {
      globally = output.globally;
      channel = if known then output.channel else put_roles channel_id channel_roles output.channel;
      room = put_roles room_id room_roles output.room;
    })

  -- get_user_roles
  unfoldable pub get_user_roles : Text → Action S UserRoles
  get_user_roles user_id = do
    rooms ← reads (hgetall (Key.rooms_for_user user_id))
    global_roles ← reads (hget Key.global_roles user_id)
    roles_of_rooms user_id rooms []
        (record { globally = roles_or_none global_roles; channel = []; room = [] })

  -- get_user_roles_in_room
  unfoldable pub get_user_roles_in_room : Text → Text → Action S (List Text)
  get_user_roles_in_room user_id room_id = do
    roles ← get_user_roles user_id
    pure (elim (lookup room_id roles.room) [ none ↦ [] | some l ↦ l ])

  -- `b64e` and `strftime` are arguments.
  module _ (b64e : Text → Text) (strftime : ℤ → Text) (now : ℕ) where
    -- The loop over the bans of a hash; one that is over is deleted.
    unfoldable pub list_bans : Key → Dict Text → Action S (Dict Banned)
    list_bans key [] = pure []
    list_bans key ((user_id, ban) ∷ bans) = do
      parts ← three_parts (split_max b'|' 2 ban)
      end ← or_raise (parse_int parts.1) value_error
      if not (leb_ℤ (pos now) end)
          then (writes (hdel key user_id) >> list_bans key bans)
          else (get_user_name user_id >>= λ name. list_bans key bans >>= λ rest. pure (
              (user_id, record { name = b64e name; duration = parts.0; timestamp = strftime end })
              ∷ rest))

    -- get_banned_users_global
    unfoldable pub get_banned_users_global : Action S (Dict Banned)
    get_banned_users_global =
        reads (hgetall Key.banned_users_global) >>= list_bans Key.banned_users_global

    -- get_banned_users_for_channel
    unfoldable pub get_banned_users_for_channel : Text → Action S (Dict Banned)
    get_banned_users_for_channel channel_id =
        reads (hgetall (Key.banned_users_channel channel_id))
        >>= list_bans (Key.banned_users_channel channel_id)

    -- get_banned_users_for_room
    unfoldable pub get_banned_users_for_room : Text → Action S (Dict Banned)
    get_banned_users_for_room room_id =
        reads (hgetall (Key.banned_users_room room_id))
        >>= list_bans (Key.banned_users_room room_id)
