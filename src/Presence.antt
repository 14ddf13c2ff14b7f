-- ===== src/Presence.antt =====
-- Who is online: the changes of status of CacheRedis of dino/cache/redis.py and of DatabaseRdbms of
-- dino/db/rdbms/handler.py, on the state of a node. What is logged is left out.
pub mod Changes
pub mod Users
pub mod Seen
pub mod Standing
pub mod Rows
pub mod Effects
pub mod Agreement
pub mod Reach
pub mod Laws
pub mod Hooks
pub mod Away
pub mod Refused
use dino.Prelude.{ℕ, Bool, true, false, Option, none, some, List, [], ◌∷◌, ◌++◌, if◌then◌else◌}
use dino.Prelude.Text.{Text, str, strip}
use dino.Prelude.Int.{ℤ, pos}
use dino.Prelude.Dict.{Dict, lookup}
use dino.Generic.Decimal.{show}
use dino.Redis.{Client, SetKey, TextKey, get_text, set_text, sismember, srem}
use dino.Redis.Commands.{Commands, expire_text}
use dino.Cache.Redis.{Value, text, CacheRedis, recall, remember}
use dino.Cache.Redis.Status.{get_user_status, set_user_status, status_unavailable}

-- activity_for_status_change, with whether it goes to the status topic, and what
-- add_last_online_at_to_event put into it, in seconds.
pub record Event : Type 0 where
  pub verb : Text
  pub actor : Text
  pub to_status_topic : Bool
  pub updated : Option ℤ

-- The cache, the tables UserStatus and LastOnline, and the events published, the latest first.
pub record Node (S : Type 0) : Type 0 where
  pub store : CacheRedis S
  pub status_rows : Dict Text
  pub last_online_rows : Dict ℕ
  pub published : List Event

-- What a call meets: `int(float(x))`, where it does not raise; whether there is a status topic; the
-- reading of the clock; and whether trim_user_changed_at draws the number on which it trims.
pub record Env : Type 0 where
  pub int_float : Text → Option ℤ
  pub has_status_topic : Bool
  pub now : ℕ
  pub trims : Bool

-- RedisKeys.user_last_online
abbrev pub last_online_key : Text → Text
last_online_key user_id = str "user:online:last:" ++ user_id

-- int(float(online_at)) of a value of the memory
abbrev pub seconds_of : Env → Value → Option ℤ
seconds_of env (text at) = env.int_float at
seconds_of env _ = none

module _ {S : Type 0} where
  abbrev pub on_redis : (S → S) → Node S → Node S
  on_redis f node = record node { store = record (node.store) { redis = f (node.store.redis) } }

  abbrev pub on_store : (CacheRedis S → CacheRedis S) → Node S → Node S
  on_store f node = record node { store = f (node.store) }

  -- env.publish
  abbrev pub publish : Event → Node S → Node S
  publish event node = record node { published = event ∷ node.published }

  -- The event for the status topic, if there is one.
  abbrev pub publish_status : Env → Text → Text → Node S → Node S
  publish_status env user_id verb node =
      if env.has_status_topic
      then publish (record { verb = verb; actor = user_id; to_status_topic = true; updated = none })
          node
      else node

module _ {S : Type 0} ⦃R : Client S⦄ (env : Env) where
  abbrev pub fill_last_online : Text → Option Text → CacheRedis S → Option Value × CacheRedis S
  fill_last_online user_id none st = (none, st)
  fill_last_online user_id (some at) st =
      (some (text at), remember env.now (last_online_key user_id) (text at) 30 st)

  -- CacheRedis.get_last_online
  unfoldable pub cached_last_online : Text → CacheRedis S → Option Value × CacheRedis S
  cached_last_online user_id st =
      let (value, st') = recall env.now (last_online_key (strip user_id)) st in
      elim value [
        | some v ↦ (some v, st')
        | none ↦
            fill_last_online (strip user_id)
              (get_text (TextKey.user_last_online (strip user_id)) st'.redis) st'
      ]

  -- CacheRedis.set_last_online; the chunks only group the commands.
  unfoldable pub set_last_online : List (Text × ℕ) → S → S
  set_last_online [] s = s
  set_last_online ((user_id, at) ∷ times) s =
      set_last_online times (set_text (TextKey.user_last_online user_id) (show at) s)

  -- user_is_in_multicast
  unfoldable pub user_is_in_multicast : Text → Node S → Bool
  user_is_in_multicast user_id node = sismember SetKey.users_multi_cast user_id (node.store.redis)

  -- remove_from_multicast_on_disconnect
  unfoldable pub remove_from_multicast_on_disconnect : Text → Node S → Node S
  remove_from_multicast_on_disconnect user_id =
      on_redis (srem SetKey.users_multi_cast (strip user_id))

  -- _get_user_status of DatabaseRdbms.get_user_status
  abbrev pub row_status : Text → Node S → Text
  row_status user_id node = elim (lookup user_id (node.status_rows)) [
    | none ↦ status_unavailable
    | some status ↦ status
  ]

  -- The end of DatabaseRdbms.get_user_status, and all of it with skip_cache.
  unfoldable pub status_from_row : Text → Node S → Value × Node S
  status_from_row user_id node =
      let status = row_status user_id node in
      (text status, on_store (set_user_status env.now user_id status) node)

  abbrev pub answer_status : Text → Node S → Option Value × CacheRedis S → Value × Node S
  answer_status user_id node (some status, store) = (status, record node { store = store })
  answer_status user_id node (none, store) = status_from_row user_id (record node { store = store })

  -- DatabaseRdbms.get_user_status without skip_cache
  unfoldable pub status_of_user : Text → Node S → Value × Node S
  status_of_user user_id node =
      answer_status user_id node (get_user_status env.now user_id (node.store))

  abbrev pub last_online_from_row : Text → Option ℕ → Node S → Option ℤ × Node S
  last_online_from_row user_id none node = (none, node)
  last_online_from_row user_id (some at) node =
      (some (pos at), on_redis (set_last_online ((user_id, at) ∷ [])) node)

  -- DatabaseRdbms.get_last_online; `none` also where it raises, as its only caller here goes on
  -- without a time then.
  unfoldable pub get_last_online : Text → Node S → Option ℤ × Node S
  get_last_online user_id node =
      let (online_at, store) = cached_last_online user_id (node.store) in
      elim online_at [
        | some at ↦ (seconds_of env at, record node { store = store })
        | none ↦
            last_online_from_row user_id (lookup user_id (node.last_online_rows))
              (record node { store = store })
      ]

module _ {S : Type 0} ⦃R : Client S⦄ ⦃C : Commands S R⦄ (env : Env) where
  -- CacheRedis._set_last_online
  unfoldable pub put_last_online : Text → Node S → Node S
  put_last_online user_id node =
      let unix_time = show env.now in
      let node' =
        on_store (remember env.now (last_online_key user_id) (text unix_time) 3600) node in
      publish_status env user_id (str "lastonline") (
        on_redis
          (λ s.
            expire_text (TextKey.user_last_online user_id) 604800
              (set_text (TextKey.user_last_online user_id) unix_time s))
          node')
