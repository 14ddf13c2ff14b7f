-- ===== src/Cache/Redis/Reads.antt =====
-- What CacheRedis of dino/cache/redis.py answers, against one table for each kind of question.
use dino.Prelude.{
  ℕ, ◌≤◌, Bool, true, false, ◌&&◌, Option, none, some, [], ◌∷◌, ◌++◌, ◌≡◌, refl, ◌∙◌, ◌+◌, arith,
}
use mathlib.Core.List.{append_cancel_right}
use dino.Prelude.Text.{Text, text_dec, ◌==◌, str}
use dino.Prelude.Dict.{insert, lookup-insert, lookup-erase}
use dino.Redis.{Key, Client, hget, hset, same_key}
use dino.Redis.Names.{key_name}
use dino.Cache.Memory.{get, set}
use dino.Cache.Redis.{
  Value, text, or_nothing, CacheRedis, cache_key, channel_name_key, room_name_key, read_through,
  get_channel_name, set_channel_name, get_room_name, set_room_name, get_channel_for_room,
  set_channel_for_room, get_user_name, set_user_name, get_user_id, set_user_id,
}

-- What a user of the cache asks for: the name of a channel, the name of a room, and so on.
pub data Table : Type 0 where
  channel_names room_names channels_for_rooms user_names user_ids : Table

abbrev pub same_table : Table → Table → Bool
same_table channel_names channel_names = true
same_table room_names room_names = true
same_table channels_for_rooms channels_for_rooms = true
same_table user_names user_names = true
same_table user_ids user_ids = true
same_table _ _ = false

-- The hash in Redis, and the name in the memory.
abbrev pub key_of : Table → Key
key_of channel_names = Key.channels
key_of room_names = Key.room_name_for_id
key_of channels_for_rooms = Key.channel_for_rooms
key_of user_names = Key.user_names
key_of user_ids = Key.user_ids

abbrev pub name_of : Table → Text → Text
name_of channel_names f = channel_name_key f
name_of room_names f = room_name_key f
name_of channels_for_rooms f = cache_key Key.channel_for_rooms f
name_of user_names f = cache_key Key.user_names f
name_of user_ids f = cache_key Key.user_ids f

pub append-same : (p f g : Text) → (p ++ f == p ++ g) ≡ (f == g)
append-same [] f g = refl
append-same (c ∷ p) f g = ground (arith, append-same p f g)

same-append : (p f g : Text) → (f ++ p == g ++ p) ≡ (f == g)
same-append p f g = elim (text_dec f g) [
  | yes same ↦ rw same (ground arith)
  | no other ↦ ground (arith, other, append_cancel_right f g p)
]

pub name_of-same :
    (t u : Table) (f g : Text) → (name_of t f == name_of u g) ≡ (same_table t u && f == g)
unfolding key_name text_dec
name_of-same channel_names channel_names f g =
    append-same (key_name Key.channels ++ str "-name-") f g
name_of-same channel_names room_names f g = refl
name_of-same channel_names channels_for_rooms f g = refl
name_of-same channel_names user_names f g = refl
name_of-same channel_names user_ids f g = refl
name_of-same room_names channel_names f g = refl
name_of-same room_names room_names f g =
    append-same (key_name Key.room_name_for_id ++ str "-") (f ++ str "-name") (g ++ str "-name")
    ∙ same-append (str "-name") f g
name_of-same room_names channels_for_rooms f g = refl
name_of-same room_names user_names f g = refl
name_of-same room_names user_ids f g = refl
name_of-same channels_for_rooms channel_names f g = refl
name_of-same channels_for_rooms room_names f g = refl
name_of-same channels_for_rooms channels_for_rooms f g =
    append-same (key_name Key.channel_for_rooms ++ str "-") f g
name_of-same channels_for_rooms user_names f g = refl
name_of-same channels_for_rooms user_ids f g = refl
name_of-same user_names channel_names f g = refl
name_of-same user_names room_names f g = refl
name_of-same user_names channels_for_rooms f g = refl
name_of-same user_names user_names f g = append-same (key_name Key.user_names ++ str "-") f g
name_of-same user_names user_ids f g = refl
name_of-same user_ids channel_names f g = refl
name_of-same user_ids room_names f g = refl
name_of-same user_ids channels_for_rooms f g = refl
name_of-same user_ids user_names f g = refl
name_of-same user_ids user_ids f g = append-same (key_name Key.user_ids ++ str "-") f g

pub key_of-same : (t u : Table) → same_key (key_of t) (key_of u) ≡ same_table t u
key_of-same t u = ground arith

-- How long the memory keeps what is set.
abbrev pub ttl_of : Table → ℕ → ℕ
ttl_of room_names ttl = ttl
ttl_of channels_for_rooms ttl = 600
ttl_of _ ttl = 30

-- What is answered, of what the memory has and of what Redis answers.
abbrev pub as_value : Option Text → Option Value
as_value none = none
as_value (some t) = some (text t)

abbrev pub or_else : Option Value → Option Text → Option Value
or_else none o = as_value o
or_else (some v) o = some v

module _ {S : Type 0} ⦃R : Client S⦄ where
  -- get_channel_name, and so on
  abbrev pub read : ℕ → Table → Text → CacheRedis S → Option Value × CacheRedis S
  read now channel_names = get_channel_name now
  read now room_names = get_room_name now
  read now channels_for_rooms = get_channel_for_room now
  read now user_names = get_user_name now
  read now user_ids = get_user_id now

  -- set_channel_name, and so on; only set_room_name draws a time to live.
  abbrev pub write : ℕ → ℕ → Table → Text → Text → CacheRedis S → CacheRedis S
  write now ttl channel_names field value = set_channel_name now field value
  write now ttl room_names field value = set_room_name now ttl field value
  write now ttl channels_for_rooms field value = set_channel_for_room now value field
  write now ttl user_names field value = set_user_name now field value
  write now ttl user_ids field value = set_user_id now value field

  read_through_lem :
      (now : ℕ) (name : Text) (key : Key) (field : Text) (st : CacheRedis S)
      → (read_through now name key field st).0
        ≡ or_else (or_nothing (get now name st.cache).0) (hget key field st.redis)
  unfolding read_through
  read_through_lem now name key field st = ground arith

  pub read_lem :
      (now : ℕ) (t : Table) (f : Text) (st : CacheRedis S)
      → (read now t f st).0
        ≡ or_else (or_nothing (get now (name_of t f) st.cache).0) (hget (key_of t) f st.redis)
  unfolding get_channel_name get_room_name get_channel_for_room get_user_name get_user_id
  read_lem now channel_names f st = read_through_lem now (channel_name_key f) Key.channels f st
  read_lem now room_names f st = read_through_lem now (room_name_key f) Key.room_name_for_id f st
  read_lem now channels_for_rooms f st =
      read_through_lem now (cache_key Key.channel_for_rooms f) Key.channel_for_rooms f st
  read_lem now user_names f st =
      read_through_lem now (cache_key Key.user_names f) Key.user_names f st
  read_lem now user_ids f st = read_through_lem now (cache_key Key.user_ids f) Key.user_ids f st

  pub write-cache :
      (now ttl : ℕ) (u : Table) (g v : Text) (st : CacheRedis S)
      → (write now ttl u g v st).cache ≡ insert (name_of u g) (now + ttl_of u ttl, text v) st.cache
  unfolding set_channel_name set_room_name set_channel_for_room set_user_name set_user_id set
  write-cache now ttl channel_names g v st = refl
  write-cache now ttl room_names g v st = refl
  write-cache now ttl channels_for_rooms g v st = refl
  write-cache now ttl user_names g v st = refl
  write-cache now ttl user_ids g v st = refl

  pub write-redis :
      (now ttl : ℕ) (u t : Table) (g v f : Text) (st : CacheRedis S)
      → hget (key_of t) f (write now ttl u g v st).redis
        ≡ hget (key_of t) f (hset (key_of u) g v st.redis)
  unfolding set_channel_name set_room_name set_channel_for_room set_user_name set_user_id
  write-redis now ttl channel_names t g v f st =
      R.hget-expire (key_of t) Key.channels f 599 (hset Key.channels g v st.redis)
  write-redis now ttl room_names t g v f st =
      R.hget-expire (key_of t) Key.room_name_for_id f 599 (hset Key.room_name_for_id g v st.redis)
  write-redis now ttl channels_for_rooms t g v f st =
      R.hget-expire (key_of t) Key.channel_for_rooms f 3599
        (hset Key.channel_for_rooms g v st.redis)
  write-redis now ttl user_names t g v f st = refl
  write-redis now ttl user_ids t g v f st = refl

  read_through-state :
      (now later : ℕ) (name other : Text) (key j : Key) (field f : Text) (st : CacheRedis S)
      → now ≤ later
      → (other == name ≡ true → hget j f st.redis ≡ hget key field st.redis)
      → or_else
          (or_nothing (get later other (read_through now name key field st).1.cache).0)
          (hget j f (read_through now name key field st).1.redis)
        ≡ or_else (or_nothing (get later other st.cache).0) (hget j f st.redis)
  unfolding read_through get set
  read_through-state now later name other key j field f st le same =
      grind (arith, le, same, lookup-insert, lookup-erase)

  read-read_through :
      (now : ℕ) (u : Table) (g : Text) (st : CacheRedis S)
      → read now u g st ≡ read_through now (name_of u g) (key_of u) g st
  unfolding get_channel_name get_room_name get_channel_for_room get_user_name get_user_id
  read-read_through now channel_names g st = refl
  read-read_through now room_names g st = refl
  read-read_through now channels_for_rooms g st = refl
  read-read_through now user_names g st = refl
  read-read_through now user_ids g st = refl

  same_question :
      (t u : Table) (f g : Text) (s : S)
      → name_of t f == name_of u g ≡ true
      → hget (key_of t) f s ≡ hget (key_of u) g s
  same_question t u f g s same = ground (arith, same, name_of-same t u f g)

  -- Asking leaves every answer as it was, of this question and of any other, at that time and
  -- later, although it puts values into the memory and drops expired ones.
  pub read-read :
      (now later : ℕ) (t u : Table) (f g : Text) (st : CacheRedis S)
      → now ≤ later
      → (read later t f (read now u g st).1).0 ≡ (read later t f st).0
  read-read now later t u f g st le =
      rw
        (
          read-read_through now u g st,
          read_lem later t f (read_through now (name_of u g) (key_of u) g st).1,
          read_lem later t f st,
        )
        (read_through-state now later (name_of u g) (name_of t f) (key_of u) (key_of t) g f st le
          (same_question t u f g st.redis))
