-- ===== src/Cache/Redis/Exists.antt =====
-- Which channels and rooms exist, and how they are forgotten: CacheRedis of dino/cache/redis.py.
use dino.Prelude.{ℕ, true, false, if◌then◌else◌, Bool, Option, none, some, List, [], ◌∷◌}
use dino.Prelude.Text.{Text, str}
use dino.Redis.{Key, Client, hget, hset, hdel, delete, expire, hexists}
use dino.Cache.Memory as Memory
use dino.Cache.Redis.{
  text, truth, nothing, CacheRedis, cache_key, channel_name_key, room_name_key, recall, remember,
}
use dino.Db.RoleKeys

-- RoleKeys.all_roles
abbrev pub all_roles : List Text
all_roles =
    RoleKeys.owner ∷ RoleKeys.moderator ∷ RoleKeys.admin ∷ RoleKeys.super_user
    ∷ RoleKeys.global_moderator ∷ []

module _ {S : Type 0} ⦃R : Client S⦄ (now : ℕ) where
  abbrev pub found : Text → Bool → CacheRedis S → Bool × CacheRedis S
  found name exists st = if exists then (true, remember now name truth 30 st) else (false, st)

  -- get_room_exists; `false` is None
  unfoldable pub get_room_exists : Text → Text → CacheRedis S → Bool × CacheRedis S
  get_room_exists channel_id room_id st =
      let name = cache_key (Key.rooms channel_id) room_id in
      let (value, st') = recall now name st in
      elim value [
        | some _ ↦ (true, st')
        | none ↦ found name (hexists (Key.rooms channel_id) room_id st'.redis) st'
      ]

  -- set_room_exists
  unfoldable pub set_room_exists : Text → Text → Text → CacheRedis S → CacheRedis S
  set_room_exists channel_id room_id room_name st =
      let st' = remember now (cache_key (Key.rooms channel_id) room_id) (text room_name) 30 st in
      record st' {
        redis =
            expire (Key.rooms channel_id) 60
              (hset (Key.rooms channel_id) room_id room_name st'.redis);
      }

  -- get_channel_exists; `false` is None
  unfoldable pub get_channel_exists : Text → CacheRedis S → Bool × CacheRedis S
  get_channel_exists channel_id st =
      let name = cache_key Key.channel_exists channel_id in
      let (value, st') = recall now name st in
      elim value [
        | some _ ↦ (true, st')
        | none ↦ found name (hexists Key.channel_exists channel_id st'.redis) st'
      ]

  -- set_channel_exists
  unfoldable pub set_channel_exists : Text → CacheRedis S → CacheRedis S
  set_channel_exists channel_id st =
      let redis =
        expire Key.channel_exists 60 (hset Key.channel_exists channel_id (str "1") st.redis) in
      remember now (cache_key Key.channel_exists channel_id) truth 30 (record st { redis = redis })

  -- remove_channel_exists
  unfoldable pub remove_channel_exists : Text → CacheRedis S → CacheRedis S
  remove_channel_exists channel_id st =
      let exists = Memory.delete (cache_key Key.channel_exists channel_id) st.cache in
      record st {
        redis = hdel Key.channels channel_id (hdel Key.channel_exists channel_id st.redis);
        cache = Memory.delete (channel_name_key channel_id) exists;
      }

module _ {S : Type 0} ⦃R : Client S⦄ where
  abbrev pub delete_roles : Text → List Text → S → S
  delete_roles room_id [] s = s
  delete_roles room_id (role ∷ roles) s =
      delete_roles room_id roles (delete (Key.users_in_room_for_role room_id role) s)

  abbrev pub forget_name : Text → Option Text → CacheRedis S → CacheRedis S
  forget_name channel_id none st = st
  forget_name channel_id (some room_name) st = record st {
    cache = Memory.delete (cache_key (Key.room_id_for_name channel_id) room_name) st.cache;
  }

  -- `hdel` of a key of Redis, `delete` of a key of the memory
  abbrev pub forget : Text → Key → Text → CacheRedis S → CacheRedis S
  forget name key field st = record st {
    cache = Memory.delete name st.cache;
    redis = hdel key field st.redis;
  }

  abbrev pub delete_room_roles : Text → CacheRedis S → CacheRedis S
  delete_room_roles room_id st = record st { redis = delete (Key.room_roles room_id) st.redis }

  -- The steps of `remove_room_exists` behind the first: the channel of the room and its roles, its
  -- name, the room of the name, and the users with a role.
  unfoldable pub remove_room_rest : Text → Text → CacheRedis S → CacheRedis S
  remove_room_rest channel_id room_id st =
      let unfiled =
        forget (cache_key Key.channel_for_rooms room_id) Key.channel_for_rooms room_id st in
      let without_roles = delete_room_roles room_id unfiled in
      let room_name = hget Key.room_name_for_id room_id without_roles.redis in
      let unnamed = forget (room_name_key room_id) Key.room_name_for_id room_id without_roles in
      let st' = record unnamed {
        redis = hdel (Key.room_id_for_name channel_id) room_id unnamed.redis;
      } in
      let st'' = forget_name channel_id room_name st' in
      record st'' { redis = delete_roles room_id all_roles st''.redis }

  -- remove_room_exists
  unfoldable pub remove_room_exists : ℕ → Text → Text → CacheRedis S → CacheRedis S
  remove_room_exists now channel_id room_id st =
      let st' = remember now (cache_key (Key.rooms channel_id) room_id) nothing 30 st in
      remove_room_rest channel_id room_id
        (record st' { redis = hdel (Key.rooms channel_id) room_id st'.redis })
