-- ===== src/Cache/Redis/Status.antt =====
-- The status of users: CacheRedis of dino/cache/redis.py.
use dino.Prelude.{ℕ, ◌+◌, Bool, false, Option, none, some, ◌++◌, if◌then◌else◌, ◌≡◌, arith}
use dino.Prelude.Text.{Text, str, ◌==◌}
use dino.Prelude.Dict.{lookup-insert}
use dino.Redis.{Client, TextKey, get_text, set_text}
use dino.Cache.Memory.{get, set}
use dino.Cache.Redis.Reads.{append-same}
use dino.Cache.Redis.{Value, text, CacheRedis, recall, remember}

-- RedisKeys.user_status
abbrev pub status_key : Text → Text
status_key user_id = str "user:status:" ++ user_id

abbrev pub is_text : Text → Option Value → Bool
is_text t (some (text u)) = u == t
is_text t _ = false

-- UserKeys
abbrev pub status_available : Text
status_available = str "1"

abbrev pub status_invisible : Text
status_invisible = str "3"

abbrev pub status_unavailable : Text
status_unavailable = str "4"

module _ {S : Type 0} ⦃R : Client S⦄ (now : ℕ) where
  abbrev pub fill_status : Text → Option Text → CacheRedis S → Option Value × CacheRedis S
  fill_status user_id none st = (none, st)
  fill_status user_id (some status) st =
      (some (text status), remember now (status_key user_id) (text status) 10 st)

  -- get_user_status; what Redis answers are bytes, which are never equal to ''.
  unfoldable pub get_user_status : Text → CacheRedis S → Option Value × CacheRedis S
  get_user_status user_id st =
      let (value, st') = recall now (status_key user_id) st in
      elim value [
        | some v ↦ (some v, st')
        | none ↦ fill_status user_id (get_text (TextKey.user_status user_id) st'.redis) st'
      ]

  -- set_user_status
  unfoldable pub set_user_status : Text → Text → CacheRedis S → CacheRedis S
  set_user_status user_id status st =
      let st' = remember now (status_key user_id) (text status) 30 st in
      record st' { redis = set_text (TextKey.user_status user_id) status st'.redis }

  -- user_check_status
  unfoldable pub user_check_status : Text → Text → CacheRedis S → Bool × CacheRedis S
  user_check_status user_id other_status st =
      let (status, st') = get_user_status user_id st in (is_text other_status status, st')

  -- user_is_offline
  unfoldable pub user_is_offline : Text → CacheRedis S → Bool × CacheRedis S
  user_is_offline user_id = user_check_status user_id status_unavailable

  -- user_is_online
  unfoldable pub user_is_online : Text → CacheRedis S → Bool × CacheRedis S
  user_is_online user_id = user_check_status user_id status_available

  -- user_is_invisible
  unfoldable pub user_is_invisible : Text → CacheRedis S → Bool × CacheRedis S
  user_is_invisible user_id = user_check_status user_id status_invisible

module _ {S : Type 0} ⦃R : Client S⦄ where
  pub get_user_status-set :
      (now later : ℕ) (u user_id status : Text) (st : CacheRedis S)
      → (get_user_status later u (set_user_status now user_id status st)).0
        ≡ (if u == user_id then some (text status) else (get_user_status later u st).0)
  unfolding get_user_status set_user_status get set
  get_user_status-set now later u user_id status st = ground (
    arith,
    lookup-insert (status_key u) (status_key user_id) (now + 30, text status) st.cache,
    append-same (str "user:status:") u user_id,
    R.set_law (TextKey.user_status u) (TextKey.user_status user_id) status st.redis,
  )

  -- The status that was set for a user is answered from then on, at any later reading of the clock,
  -- and the three questions about it are answered by it; those about other users stay as they were.
  pub user_status-set :
      (now later : ℕ) (u user_id status : Text) (st : CacheRedis S)
      → ((get_user_status later u (set_user_status now user_id status st)).0
          ≡ (if u == user_id then some (text status) else (get_user_status later u st).0))
        × ((user_is_online later u (set_user_status now user_id status st)).0
            ≡ (if u == user_id then status == status_available else (user_is_online later u st).0))
        × ((user_is_offline later u (set_user_status now user_id status st)).0 ≡ (
            if u == user_id then status == status_unavailable else (user_is_offline later u st).0))
        × ((user_is_invisible later u (set_user_status now user_id status st)).0 ≡ (
            if u == user_id then status == status_invisible else (user_is_invisible later u st).0))
  unfolding user_is_online user_is_offline user_is_invisible user_check_status
  user_status-set now later u user_id status st =
      let answer = get_user_status-set now later u user_id status st in
      (answer, ground (arith, answer), ground (arith, answer), ground (arith, answer))
