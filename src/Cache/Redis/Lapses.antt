-- ===== src/Cache/Redis/Lapses.antt =====
-- What CacheRedis of dino/cache/redis.py answers after some time: the memory drops what it has, and
-- Redis the hashes to which the setters gave a time to live.
use dino.Prelude.{
  ℕ, suc, ◌<◌, ◌+◌, true, false, ◌&&◌, Option, none, some, if◌then◌else◌, ◌≡◌, ◌∙◌, ap, arith,
}
use dino.Prelude.Text.{Text, ◌==◌}
use dino.Prelude.Dict.{lookup-insert}
use dino.Redis.{Key, Client, hget, hset, expire, same_key}
use dino.Redis.Lapse.{Lapse, lapsed, ttl, pass}
use dino.Cache.Memory.{get}
use dino.Cache.Redis.{
  text, CacheRedis, set_channel_name, set_room_name, set_channel_for_room, set_user_name,
  set_user_id,
}
use dino.Cache.Redis.Reads.{
  Table, channel_names, room_names, channels_for_rooms, user_names, user_ids, same_table, key_of,
  name_of, ttl_of, read, write, read_lem, write-cache, write-redis, name_of-same, key_of-same,
}

same_table-key : (t u : Table) → same_table t u ≡ true → key_of t ≡ key_of u
same_table-key t u h = ground (arith, h)

same_table_refl : (t : Table) → same_table t t ≡ true
same_table_refl t = ground arith

same_key_refl : (k : Key) → same_key k k ≡ true
same_key_refl k = ground arith

module _ {S : Type 0} ⦃R : Client S⦄ ⦃L : Lapse S R⦄ where
  -- The cache after some time in which nobody uses it
  abbrev pub after : ℕ → CacheRedis S → CacheRedis S
  after n st = record st { redis = pass n st.redis }

  -- The time to live of the hash in Redis once something was set: ten minutes for names, and an hour
  -- for the channels of rooms. The others stay as they are.
  abbrev pub kept_for : Table → S → Option ℕ
  kept_for channel_names s = some 600
  kept_for room_names s = some 600
  kept_for channels_for_rooms s = some 3600
  kept_for user_names s = ttl Key.user_names s
  kept_for user_ids s = ttl Key.user_ids s

  -- The time to live of a hash that was set and then got one
  ttl-expire_set :
      (j k : Key) (g v : Text) (m : ℕ) (s : S)
      → ttl j (expire k (suc m) (hset k g v s)) ≡ (if same_key j k then some (suc m) else ttl j s)
  ttl-expire_set j k g v m s =
      L.ttl-expire j k g v m (hset k g v s)
        (R.hset_law k k g g v s ∙ ground (arith, same_key_refl k))
      ∙ ap (λ t. if same_key j k then some (suc m) else t) (L.ttl-hset j k g v s)

  ttl-write :
      (now mem : ℕ) (u t : Table) (g v : Text) (st : CacheRedis S)
      → ttl (key_of t) (write now mem u g v st).redis
        ≡ (if same_table t u then kept_for u st.redis else ttl (key_of t) st.redis)
  unfolding set_channel_name set_room_name set_channel_for_room set_user_name set_user_id
  ttl-write now mem channel_names t g v st =
      ttl-expire_set (key_of t) Key.channels g v 599 st.redis
      ∙ ground (arith, key_of-same t channel_names)
  ttl-write now mem room_names t g v st =
      ttl-expire_set (key_of t) Key.room_name_for_id g v 599 st.redis
      ∙ ground (arith, key_of-same t room_names)
  ttl-write now mem channels_for_rooms t g v st =
      ttl-expire_set (key_of t) Key.channel_for_rooms g v 3599 st.redis
      ∙ ground (arith, key_of-same t channels_for_rooms)
  ttl-write now mem user_names t g v st =
      L.ttl-hset (key_of t) Key.user_names g v st.redis
      ∙ ground (arith, same_table-key t user_names)
  ttl-write now mem user_ids t g v st =
      L.ttl-hset (key_of t) Key.user_ids g v st.redis ∙ ground (arith, same_table-key t user_ids)

  hget-write :
      (now n mem : ℕ) (t u : Table) (f g v : Text) (st : CacheRedis S)
      → lapsed n (kept_for u st.redis) ≡ false
      → lapsed n (ttl (key_of u) st.redis) ≡ false
      → hget (key_of t) f (pass n (write now mem u g v st).redis)
        ≡ (if same_table t u && f == g then some v else hget (key_of t) f (pass n st.redis))
  hget-write now n mem t u f g v st kept there =
      L.hget-pass (key_of t) f n (write now mem u g v st).redis
      ∙ ground (
        arith,
        kept,
        there,
        L.hget-pass (key_of t) f n st.redis,
        ttl-write now mem u t g v st,
        write-redis now mem u t g v f st,
        R.hset_law (key_of t) (key_of u) f g v st.redis,
        key_of-same t u,
        same_table-key t u,
      )

  -- What was set is answered after some time, whether or not the memory has dropped it, and no
  -- other question, of this kind or another, is answered differently then. That is as long as Redis
  -- keeps the hash, both as it was before and once it was set: from then on those of the names of
  -- channels and rooms have ten minutes, that of the channels of rooms an hour, and those of the
  -- names and ids of users what they had. Nobody uses the cache in between.
  pub read-write :
      (now n mem : ℕ) (t u : Table) (f g v : Text) (st : CacheRedis S)
      → lapsed n (kept_for u st.redis) ≡ false
      → lapsed n (ttl (key_of u) st.redis) ≡ false
      → (read (now + n) t f (after n (write now mem u g v st))).0
        ≡ (if same_table t u && f == g then some (text v) else (read (now + n) t f (after n st)).0)
  unfolding get
  read-write now n mem t u f g v st kept there =
      rw
        (
          read_lem (now + n) t f (after n (write now mem u g v st)),
          read_lem (now + n) t f (after n st),
        )
        (ground (
          arith,
          write-cache now mem u g v st,
          hget-write now n mem t u f g v st kept there,
          lookup-insert (name_of t f) (name_of u g) (now + ttl_of u mem, text v) st.cache,
          name_of-same t u f g,
        ))

  -- And once the memory and Redis have both dropped it, it is not answered any more, unless it is set
  -- again: after ten minutes, or an hour, at most.
  pub read-lapsed :
      (now n mem : ℕ) (t : Table) (f v : Text) (st : CacheRedis S)
      → ttl_of t mem < n
      → lapsed n (kept_for t st.redis) ≡ true
      → (read (now + n) t f (after n (write now mem t f v st))).0 ≡ none
  unfolding get
  read-lapsed now n mem t f v st forgotten over =
      read_lem (now + n) t f (after n (write now mem t f v st))
      ∙ ground (
        arith,
        forgotten,
        over,
        write-cache now mem t f v st,
        L.hget-pass (key_of t) f n (write now mem t f v st).redis,
        ttl-write now mem t t f v st,
        same_table_refl t,
        lookup-insert (name_of t f) (name_of t f) (now + ttl_of t mem, text v) st.cache,
      )
