-- ===== src/Cache/Redis.antt =====
-- CacheRedis of dino/cache/redis.py: a MemoryCache in front of Redis. The clock is read once in a
-- call, and is an argument.
pub mod Exists
pub mod Bans
pub mod Reads
pub mod Lapses
pub mod Forgets
pub mod Sessions
pub mod BlackList
pub mod Status
pub mod Timestamps
use dino.Prelude.{ℕ, true, false, if◌then◌else◌, Bool, Option, none, some, List, [], ◌∷◌, ◌++◌}
use dino.Prelude.Text.{Text, str}
use dino.Redis.{Key, Client, hget, hset, hdel, expire, hexists}
use dino.Redis.Names.{key_name}
use dino.Cache.Memory as Memory
use dino.Cache.Memory.{Vals}
use dino.Db.RoleKeys
use dino.Db.Bans.{split_max}

-- What is put into the memory: a text, a set of texts, True or None.
pub data Value : Type 0 where
  text : Text → Value
  words : List Text → Value
  truth nothing : Value

pub record CacheRedis (S : Type 0) : Type 0 where
  pub redis : S
  pub cache : Vals Value

-- '%s-%s' % (key, field)
abbrev pub cache_key : Key → Text → Text
cache_key key field = key_name key ++ b'-' ∷ field

-- '%s-name-%s' % (key, channel_id)
abbrev pub channel_name_key : Text → Text
channel_name_key channel_id = key_name Key.channels ++ (str "-name-" ++ channel_id)

-- '%s-%s-name' % (key, room_id)
abbrev pub room_name_key : Text → Text
room_name_key room_id = key_name Key.room_name_for_id ++ (b'-' ∷ (room_id ++ str "-name"))

-- A stored None is as good as no value.
abbrev pub or_nothing : Option Value → Option Value
or_nothing none = none
or_nothing (some nothing) = none
or_nothing (some (text t)) = some (text t)
or_nothing (some (words l)) = some (words l)
or_nothing (some truth) = some truth

module _ {S : Type 0} ⦃R : Client S⦄ (now : ℕ) where
  -- self.cache.get and self.cache.set
  abbrev pub recall : Text → CacheRedis S → Option Value × CacheRedis S
  recall name st =
      let (value, cache) = Memory.get now name st.cache in
      (or_nothing value, record st { cache = cache })

  abbrev pub remember : Text → Value → ℕ → CacheRedis S → CacheRedis S
  remember name value ttl st = record st { cache = Memory.set now name value ttl st.cache }

  -- What a reader does with what Redis answers, which it puts into the memory.
  abbrev pub fill : Text → Option Text → CacheRedis S → Option Value × CacheRedis S
  fill name none st = (none, st)
  fill name (some value) st = (some (text value), remember name (text value) 30 st)

  -- The body of the readers of a field of a hash.
  unfoldable pub read_through : Text → Key → Text → CacheRedis S → Option Value × CacheRedis S
  read_through name key field st =
      let (value, st') = recall name st in
      elim value [ some v ↦ (some v, st') | none ↦ fill name (hget key field st'.redis) st' ]

  -- get_channel_name
  unfoldable pub get_channel_name : Text → CacheRedis S → Option Value × CacheRedis S
  get_channel_name channel_id = read_through (channel_name_key channel_id) Key.channels channel_id

  -- set_channel_name
  unfoldable pub set_channel_name : Text → Text → CacheRedis S → CacheRedis S
  set_channel_name channel_id channel_name st =
      let st' = remember (channel_name_key channel_id) (text channel_name) 30 st in
      record st' {
        redis = expire Key.channels 600 (hset Key.channels channel_id channel_name st'.redis);
      }

  -- get_room_name
  unfoldable pub get_room_name : Text → CacheRedis S → Option Value × CacheRedis S
  get_room_name room_id = read_through (room_name_key room_id) Key.room_name_for_id room_id

  -- set_room_name; the time to live in the memory is drawn at random, and is an argument.
  unfoldable pub set_room_name : ℕ → Text → Text → CacheRedis S → CacheRedis S
  set_room_name ttl room_id room_name st =
      let st' = remember (room_name_key room_id) (text room_name) ttl st in
      record st' {
        redis =
            expire Key.room_name_for_id 600 (hset Key.room_name_for_id room_id room_name st'.redis);
      }

  -- get_channel_for_room
  unfoldable pub get_channel_for_room : Text → CacheRedis S → Option Value × CacheRedis S
  get_channel_for_room room_id =
      read_through (cache_key Key.channel_for_rooms room_id) Key.channel_for_rooms room_id

  -- set_channel_for_room
  unfoldable pub set_channel_for_room : Text → Text → CacheRedis S → CacheRedis S
  set_channel_for_room channel_id room_id st =
      let redis =
        expire Key.channel_for_rooms 3600
          (hset Key.channel_for_rooms room_id channel_id st.redis) in
      remember (cache_key Key.channel_for_rooms room_id) (text channel_id) 600
        (record st { redis = redis })

  -- get_user_name
  unfoldable pub get_user_name : Text → CacheRedis S → Option Value × CacheRedis S
  get_user_name user_id = read_through (cache_key Key.user_names user_id) Key.user_names user_id

  -- set_user_name
  unfoldable pub set_user_name : Text → Text → CacheRedis S → CacheRedis S
  set_user_name user_id user_name st =
      remember (cache_key Key.user_names user_id) (text user_name) 30
        (record st { redis = hset Key.user_names user_id user_name st.redis })

  -- get_user_id
  unfoldable pub get_user_id : Text → CacheRedis S → Option Value × CacheRedis S
  get_user_id user_name = read_through (cache_key Key.user_ids user_name) Key.user_ids user_name

  -- set_user_id
  unfoldable pub set_user_id : Text → Text → CacheRedis S → CacheRedis S
  set_user_id user_id user_name st =
      remember (cache_key Key.user_ids user_name) (text user_id) 30
        (record st { redis = hset Key.user_ids user_name user_id st.redis })

  -- get_room_id_for_name
  unfoldable pub get_room_id_for_name : Text → Text → CacheRedis S → Option Value × CacheRedis S
  get_room_id_for_name channel_id room_name =
      read_through (cache_key (Key.room_id_for_name channel_id) room_name)
        (Key.room_id_for_name channel_id) room_name

  -- set_room_id_for_name
  unfoldable pub set_room_id_for_name : Text → Text → Text → CacheRedis S → CacheRedis S
  set_room_id_for_name channel_id room_name room_id st =
      let st' =
        remember (cache_key (Key.room_id_for_name channel_id) room_name) (text room_id) 30 st in
      record st' { redis = hset (Key.room_id_for_name channel_id) room_name room_id st'.redis }

  -- remove_room_id_for_name
  unfoldable pub remove_room_id_for_name : Text → Text → CacheRedis S → CacheRedis S
  remove_room_id_for_name channel_id room_name st = record st {
    cache = Memory.delete (cache_key (Key.room_id_for_name channel_id) room_name) st.cache;
    redis = hdel (Key.room_id_for_name channel_id) room_name st.redis;
  }
