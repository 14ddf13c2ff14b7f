-- ===== src/Cache/Redis/Timestamps.antt =====
-- The bans and mutes that CacheRedis of dino/cache/redis.py keeps read back as they were set.
use dino.Prelude.{ℕ, ◌+◌, true, [], ◌∷◌, ◌≡◌, refl, ◌∙◌, arith}
use dino.Prelude.Text.{Text, ◌==◌}
use dino.Prelude.Dict.{lookup-insert}
use dino.Prelude.Split.{Lacks}
use dino.Generic.Decimal.{show}
use dino.Redis.{Key, Client, same_key}
use dino.Cache.Memory.{get, set}
use dino.Cache.Redis.{text, CacheRedis, cache_key}
use dino.Cache.Redis.Bans.{
  set_memory_cache_and_hset, get_timestamp, mute_info, set_global_ban_timestamp,
  set_channel_ban_timestamp, set_room_ban_timestamp, set_room_mute_timestamp,
  get_global_ban_timestamp, get_channel_ban_timestamp, get_room_ban_timestamp,
  get_room_mute_timestamp,
}
use dino.Db.Bans.{split_max, ban_info}
use dino.Db.Bans.Expiry.{split_max-ban_info, split_max-append}

split_max-mute_info :
    (d : Text) (t : ℕ) → Lacks b'|' d → split_max b'|' 1 (mute_info d (show t)) ≡ d ∷ show t ∷ []
unfolding split_max
split_max-mute_info d t plain = split_max-append b'|' 0 d (show t) plain

module _ {S : Type 0} ⦃R : Client S⦄ where
  get_timestamp-set :
      (now later n : ℕ) (key : Key) (user_id info : Text) (st : CacheRedis S)
      → same_key key key ≡ true
      → (get_timestamp later n key user_id (set_memory_cache_and_hset now key user_id info st)).0
        ≡ split_max b'|' n info
  unfolding get_timestamp set_memory_cache_and_hset get set
  get_timestamp-set now later n key user_id info st same = ground (
    arith,
    same,
    lookup-insert (cache_key key user_id) (cache_key key user_id) (now + 30, text info) st.cache,
    R.hset_law key key user_id user_id info st.redis,
  )

  -- A ban, everywhere, from a channel or from a room, and a mute in a room read back as the parts
  -- that were set, at any reading of the clock and so also after the memory has dropped them, if
  -- the duration has no '|'; the name of the user may have some.
  pub timestamps-set :
      (now later t : ℕ) (place user_id d name : Text) (st : CacheRedis S)
      → Lacks b'|' d
      → ((get_global_ban_timestamp later user_id
            (set_global_ban_timestamp now user_id d (show t) name st)).0
          ≡ d ∷ show t ∷ name ∷ [])
        × ((get_channel_ban_timestamp later place user_id
              (set_channel_ban_timestamp now place user_id d (show t) name st)).0
            ≡ d ∷ show t ∷ name ∷ [])
        × ((get_room_ban_timestamp later place user_id
              (set_room_ban_timestamp now place user_id d (show t) name st)).0
            ≡ d ∷ show t ∷ name ∷ [])
        × ((get_room_mute_timestamp later place user_id
              (set_room_mute_timestamp now place user_id d (show t) st)).0
            ≡ d ∷ show t ∷ [])
  unfolding get_global_ban_timestamp set_global_ban_timestamp get_channel_ban_timestamp
      set_channel_ban_timestamp get_room_ban_timestamp set_room_ban_timestamp
      get_room_mute_timestamp set_room_mute_timestamp
  timestamps-set now later t place user_id d name st plain =
      let info = ban_info d (show t) name in
      let same : (place == place) ≡ true = ground arith in
      (
        get_timestamp-set now later 2 Key.banned_users_global user_id info st refl
            ∙ split_max-ban_info d name t plain,
        get_timestamp-set now later 2 (Key.banned_users_channel place) user_id info st same
            ∙ split_max-ban_info d name t plain,
        get_timestamp-set now later 2 (Key.banned_users_room place) user_id info st same
            ∙ split_max-ban_info d name t plain,
        get_timestamp-set now later 1 (Key.muted_users place) user_id (mute_info d (show t)) st same
            ∙ split_max-mute_info d t plain,
      )
