-- ===== src/Presence/Changes.antt =====
-- The changes of status of CacheRedis of dino/cache/redis.py. A pipeline is the sequence of its
-- commands; where the server refuses the bit, the others are done, and then `execute` raises.
use dino.Prelude.{◌-◌, ◌&&◌, Bool, true, false, Option, none, some, if◌then◌else◌}
use dino.Prelude.Int.{ℤ, pos}
use dino.Prelude.Text.{Text, str, strip}
use dino.Prelude.Result.{Result, ok, err}
use dino.Redis.{Client, SetKey, TextKey, set_text, sadd, srem}
use dino.Redis.Commands.{is_offset, Commands, setbit, zadd, zremrangebyscore}
use dino.Cache.Redis.{Value, text, remember}
use dino.Cache.Redis.Status.{
  status_key, is_text, status_available, status_invisible, status_unavailable,
}
use dino.Presence.{
  Node, Env, on_redis, on_store, publish, publish_status, status_from_row, get_last_online,
  put_last_online,
}

pub data Raised : Type 0 where
  value_error response_error database_error : Raised

-- `int(float(user_id))` under a `try` that swallows what it raises, then the rest.
abbrev pub unless_raised {ℓ} : {A : Type ℓ} → Option ℤ → (ℤ → A → A) → A → A
unless_raised none rest a = a
unless_raised (some n) rest a = rest n a

-- UserKeys.STATUS_AWAY
abbrev pub status_away : Text
status_away = str "6"

-- `not was_invisible`, of what get_user_status answered
abbrev pub was_visible : Value → Bool
was_visible status = if is_text status_invisible (some status) then false else true

module _ {S : Type 0} ⦃R : Client S⦄ ⦃C : Commands S R⦄ (env : Env) where
  -- trim_user_changed_at
  unfoldable pub trim_user_changed_at : Node S → Node S
  trim_user_changed_at node =
      if env.trims then on_redis (zremrangebyscore 789000000 (env.now - 86400)) node else node

  -- The status of a user in the memory
  abbrev pub remember_status : Text → Text → Node S → Node S
  remember_status user_id status = on_store (remember env.now (status_key user_id) (text status) 30)

  -- The end of a pipeline
  abbrev pub write_status : Text → Text → S → S
  write_status user_id status s =
      zadd user_id env.now (set_text (TextKey.user_status user_id) status s)

  -- add_last_online_at_to_event
  abbrev pub last_online_at : Bool → Text → Node S → Option ℤ × Node S
  last_online_at true user_id node = (some (pos env.now), node)
  last_online_at false user_id node = get_last_online env user_id node

  abbrev pub offline_commands : Text → ℤ → S → S
  offline_commands user_id user_id_int s = write_status user_id status_unavailable (
      srem SetKey.users_multi_cast user_id
        (srem SetKey.online_set user_id (setbit user_id_int false s)))

  abbrev pub publish_offline : Text → Option ℤ × Node S → Node S
  publish_offline user_id (last_online, node) =
      publish
        (record {
          verb = str "offline";
          actor = user_id;
          to_status_topic = false;
          updated = last_online;
        })
        node

  -- set_user_offline up to `execute`
  abbrev pub offline_written : Text → ℤ → Node S → Node S
  offline_written user_id user_id_int node =
      on_redis (offline_commands (strip user_id) user_id_int) (
        remember_status (strip user_id) status_unavailable
          (put_last_online env (strip user_id) node))

  -- set_user_offline up to the first event
  abbrev pub offline_told : Text → ℤ → Node S → Node S
  offline_told user_id user_id_int node =
      publish_status env user_id (str "offline") (offline_written user_id user_id_int node)

  -- set_user_offline from `execute` on, which raises if the server refused a command
  abbrev pub offline_executed : Text → ℤ → Value → Node S → Bool → Result Raised (Unit {0}) × Node S
  offline_executed user_id user_id_int status node false =
      (err response_error, offline_written user_id user_id_int node)
  offline_executed user_id user_id_int status node true = (
    ok tt,
    trim_user_changed_at (
        publish_offline user_id
          (last_online_at (was_visible status) user_id (offline_told user_id user_id_int node))),
  )

  -- What set_user_offline does once the id is a number.
  abbrev pub go_offline : Text → ℤ → Node S → Result Raised (Unit {0}) × Node S
  go_offline user_id user_id_int node =
      let (status, node') = status_from_row env user_id node in
      offline_executed user_id user_id_int status node' (is_offset user_id_int)

  abbrev pub offline_unless : Option ℤ → Text → Node S → Result Raised (Unit {0}) × Node S
  offline_unless none user_id node = (err value_error, node)
  offline_unless (some n) user_id node = go_offline user_id n node

  -- set_user_offline, which raises again what it catches
  unfoldable pub set_user_offline : Text → Node S → Result Raised (Unit {0}) × Node S
  set_user_offline user_id = offline_unless (env.int_float user_id) user_id

  -- set_user_away
  unfoldable pub set_user_away : Text → Node S → Node S
  set_user_away user_id node = publish_status env user_id (str "away") (
      on_redis (set_text (TextKey.user_status user_id) status_away)
        (remember_status user_id status_away node))

  abbrev pub online_commands : Text → ℤ → S → S
  online_commands user_id user_id_int s = write_status user_id status_available (
      sadd SetKey.users_multi_cast user_id
        (sadd SetKey.online_set user_id (setbit user_id_int true s)))

  -- What follows `execute`, unless that raised
  abbrev pub told_unless_refused : ℤ → Text → Text → Node S → Node S
  told_unless_refused user_id_int user_id verb node =
      if is_offset user_id_int
      then trim_user_changed_at (publish_status env user_id verb node)
      else node

  abbrev pub go_online : Text → ℤ → Node S → Node S
  go_online user_id user_id_int node = told_unless_refused user_id_int user_id (str "online") (
      on_redis (online_commands (strip user_id) user_id_int)
        (remember_status (strip user_id) status_available node))

  -- set_user_online
  unfoldable pub set_user_online : Text → Node S → Node S
  set_user_online user_id = unless_raised (env.int_float user_id) (go_online user_id)

  -- set_user_status_invisible
  unfoldable pub set_user_status_invisible : Text → Node S → Node S
  set_user_status_invisible user_id node = trim_user_changed_at (
      publish_status env user_id (str "invisible") (
        on_redis (write_status (strip user_id) status_invisible)
          (remember_status (strip user_id) status_invisible node)))

  abbrev pub invisible_commands : Text → ℤ → S → S
  invisible_commands user_id user_id_int s = write_status user_id status_invisible (
      sadd SetKey.users_multi_cast user_id
        (srem SetKey.online_set user_id (setbit user_id_int false s)))

  abbrev pub go_invisible : Text → ℤ → Node S → Node S
  go_invisible user_id user_id_int node =
      told_unless_refused user_id_int user_id (str "invisible") (
        on_redis (invisible_commands (strip user_id) user_id_int)
          (remember_status (strip user_id) status_invisible node))

  -- The end of set_user_invisible
  abbrev pub update_if : Bool → Text → Node S → Node S
  update_if update_last_online user_id node =
      if update_last_online then put_last_online env (strip user_id) node else node

  -- set_user_invisible
  unfoldable pub set_user_invisible : Text → Bool → Node S → Node S
  set_user_invisible user_id update_last_online = unless_raised (env.int_float user_id) (λ n node.
      update_if (update_last_online && is_offset n) user_id (go_invisible user_id n node))
