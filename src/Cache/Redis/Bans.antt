-- ===== src/Cache/Redis/Bans.antt =====
-- The times of bans and mutes that CacheRedis of dino/cache/redis.py keeps.
use dino.Prelude.{ℕ, Option, none, some, List, [], ◌∷◌, ◌++◌}
use dino.Prelude.Text.{Text}
use dino.Redis.{Key, Client, hget, hset}
use dino.Cache.Redis.{Value, text, truth, words, nothing, CacheRedis, cache_key, recall, remember}
use dino.Db.Bans.{split_max, ban_info}

-- `value.split('|', n)`, which only a text has
abbrev pub split_value : ℕ → Value → List Text
split_value n (text t) = split_max b'|' n t
split_value n (words l) = []
split_value n truth = []
split_value n nothing = []

-- `value.split('|', n)`, or [] for (None, ..., None)
abbrev pub split_stored : ℕ → Option Text → List Text
split_stored n none = []
split_stored n (some info) = split_max b'|' n info

-- '%s|%s' % (duration, timestamp)
abbrev pub mute_info : Text → Text → Text
mute_info duration timestamp = duration ++ b'|' ∷ timestamp

module _ {S : Type 0} ⦃R : Client S⦄ (now : ℕ) where
  -- _set_memory_cache_and_hset
  unfoldable pub set_memory_cache_and_hset : Key → Text → Text → CacheRedis S → CacheRedis S
  set_memory_cache_and_hset key user_id timestamp st =
      let st' = remember now (cache_key key user_id) (text timestamp) 30 st in
      record st' { redis = hset key user_id timestamp st'.redis }

  -- _get_mute_timestamp and _get_ban_timestamp, which split at most once and twice; nothing is put
  -- into the memory.
  unfoldable pub get_timestamp : ℕ → Key → Text → CacheRedis S → List Text × CacheRedis S
  get_timestamp n key user_id st =
      let (value, st') = recall now (cache_key key user_id) st in
      elim value [
        | some v ↦ (split_value n v, st')
        | none ↦ (split_stored n (hget key user_id st'.redis), st')
      ]

  -- set_global_ban_timestamp
  unfoldable pub set_global_ban_timestamp : Text → Text → Text → Text → CacheRedis S → CacheRedis S
  set_global_ban_timestamp user_id duration timestamp username =
      set_memory_cache_and_hset Key.banned_users_global user_id
        (ban_info duration timestamp username)

  -- set_channel_ban_timestamp
  unfoldable pub set_channel_ban_timestamp :
      Text → Text → Text → Text → Text → CacheRedis S → CacheRedis S
  set_channel_ban_timestamp channel_id user_id duration timestamp username =
      set_memory_cache_and_hset (Key.banned_users_channel channel_id) user_id
        (ban_info duration timestamp username)

  -- set_room_ban_timestamp
  unfoldable pub set_room_ban_timestamp :
      Text → Text → Text → Text → Text → CacheRedis S → CacheRedis S
  set_room_ban_timestamp room_id user_id duration timestamp username =
      set_memory_cache_and_hset (Key.banned_users_room room_id) user_id
        (ban_info duration timestamp username)

  -- set_room_mute_timestamp
  unfoldable pub set_room_mute_timestamp : Text → Text → Text → Text → CacheRedis S → CacheRedis S
  set_room_mute_timestamp room_id user_id duration timestamp =
      set_memory_cache_and_hset (Key.muted_users room_id) user_id (mute_info duration timestamp)

  -- get_global_ban_timestamp
  unfoldable pub get_global_ban_timestamp : Text → CacheRedis S → List Text × CacheRedis S
  get_global_ban_timestamp user_id = get_timestamp 2 Key.banned_users_global user_id

  -- get_channel_ban_timestamp
  unfoldable pub get_channel_ban_timestamp : Text → Text → CacheRedis S → List Text × CacheRedis S
  get_channel_ban_timestamp channel_id user_id =
      get_timestamp 2 (Key.banned_users_channel channel_id) user_id

  -- get_room_ban_timestamp
  unfoldable pub get_room_ban_timestamp : Text → Text → CacheRedis S → List Text × CacheRedis S
  get_room_ban_timestamp room_id user_id = get_timestamp 2 (Key.banned_users_room room_id) user_id

  -- get_room_mute_timestamp
  unfoldable pub get_room_mute_timestamp : Text → Text → CacheRedis S → List Text × CacheRedis S
  get_room_mute_timestamp room_id user_id = get_timestamp 1 (Key.muted_users room_id) user_id
