-- ===== src/Cache/Redis/Forgets.antt =====
-- What CacheRedis of dino/cache/redis.py still answers about rooms that were removed, about rooms
-- whose names run into each other, and about bans.
use dino.Prelude.{
  ℕ, ◌+◌, ◌≤◌, true, false, Option, none, some, List, [], ◌∷◌, ◌++◌, ◌≡◌, refl, ◌≢◌, arith,
}
use mathlib.Core.List.{append_assoc}
use mathlib.Core.Path.{ap, ◌∙◌}
use dino.Prelude.Text.{Text, text_dec, ◌==◌, str}
use dino.Prelude.Dict.{lookup, lookup-insert, lookup-erase}
use dino.Redis.{Key, Client, hget, hdel, delete, same_key}
use dino.Redis.Names.{key_name}
use dino.Cache.Memory as Memory
use dino.Cache.Memory.{get, set}
use dino.Cache.Redis.{
  text, nothing, or_nothing, CacheRedis, cache_key, room_name_key, read_through,
  get_room_id_for_name,
}
use dino.Cache.Redis.Exists.{
  get_room_exists, set_room_exists, remove_room_exists, remove_room_rest, all_roles, forget,
  forget_name, delete_roles, delete_room_roles,
}

same_name :
    (a b c : Text)
    → cache_key (Key.rooms (a ++ b'-' ∷ b)) c ≡ cache_key (Key.rooms a) (b ++ b'-' ∷ c)
unfolding key_name
same_name a b c = ap (λ s. str "rooms:" ++ s) (append_assoc a (b'-' ∷ b) (b'-' ∷ c))

names_differ :
    (c d f g : Text) → (cache_key (Key.room_id_for_name c) f == cache_key (Key.rooms d) g) ≡ false
unfolding key_name text_dec
names_differ c d f g = refl

module _ {S : Type 0} ⦃R : Client S⦄ where
  -- A room `c` of the channel whose id is `a`, a dash and `b` is answered to exist as soon as a
  -- room whose id is `b`, a dash and `c` was set to exist in the channel `a`, until the memory
  -- drops it: the two have the same name in the memory.
  pub get_room_exists-dash :
      (now later : ℕ) (a b c name : Text) (st : CacheRedis S)
      → later ≤ now + 30
      → (get_room_exists later (a ++ b'-' ∷ b) c (set_room_exists now a (b ++ b'-' ∷ c) name st)).0
        ≡ true
  unfolding get_room_exists set_room_exists get set
  get_room_exists-dash now later a b c name st le = ground (
    arith,
    le,
    same_name a b c,
    lookup-insert (cache_key (Key.rooms (a ++ b'-' ∷ b)) c)
        (cache_key (Key.rooms a) (b ++ b'-' ∷ c)) (now + 30, text name) st.cache,
  )

  hget-delete_roles :
      (key : Key) (f room_id : Text) (roles : List Text) (s : S)
      → ((role : Text) → same_key key (Key.users_in_room_for_role room_id role) ≡ false)
      → hget key f (delete_roles room_id roles s) ≡ hget key f s
  hget-delete_roles key f room_id [] s other = refl
  hget-delete_roles key f room_id (role ∷ roles) s other = ground (
    arith,
    hget-delete_roles key f room_id roles (delete (Key.users_in_room_for_role room_id role) s)
        other,
    R.delete_law key (Key.users_in_room_for_role room_id role) f s,
    other role,
  )

  -- What the memory has no value for, it has none for after a deletion.
  Unknown : ℕ → Text → CacheRedis S → Type 0
  Unknown now name st = or_nothing (get now name st.cache).0 ≡ none

  set-Unknown :
      (now later : ℕ) (name : Text) (s : S) (st : CacheRedis S)
      → Unknown later name (record { redis = s; cache = set now name nothing 30 st.cache })
  unfolding Unknown get set
  set-Unknown now later name s st =
      ground (arith, lookup-insert name name (now + 30, nothing) st.cache)

  forget_name-Unknown :
      (now : ℕ) (name channel_id : Text) (room_name : Option Text) (st : CacheRedis S)
      → Unknown now name st
      → Unknown now name (forget_name channel_id room_name st)
  unfolding Unknown get Memory.delete
  forget_name-Unknown now name channel_id none st h = h
  forget_name-Unknown now name channel_id (some n) st h =
      ground (arith, h, lookup-erase name (cache_key (Key.room_id_for_name channel_id) n) st.cache)

  forget-Unknown :
      (now : ℕ) (name other : Text) (key : Key) (field : Text) (st : CacheRedis S)
      → Unknown now name st
      → Unknown now name (forget other key field st)
  unfolding Unknown get Memory.delete
  forget-Unknown now name other key field st h = ground (arith, h, lookup-erase name other st.cache)

  forget_name-redis :
      (channel_id : Text) (room_name : Option Text) (st : CacheRedis S)
      → (forget_name channel_id room_name st).redis ≡ st.redis
  forget_name-redis channel_id none st = refl
  forget_name-redis channel_id (some n) st = refl

  remove_room_rest-Unknown :
      (now : ℕ) (name channel_id room_id : Text) (st : CacheRedis S)
      → Unknown now name st
      → Unknown now name (remove_room_rest channel_id room_id st)
  unfolding Unknown remove_room_rest
  remove_room_rest-Unknown now name channel_id room_id st h =
      let key = Key.channel_for_rooms in
      let first = forget (cache_key key room_id) key room_id st in
      let second = delete_room_roles room_id first in
      forget_name-Unknown now name channel_id (hget Key.room_name_for_id room_id second.redis)
        (record (forget (room_name_key room_id) Key.room_name_for_id room_id second) {
          redis =
              hdel (Key.room_id_for_name channel_id) room_id
                (forget (room_name_key room_id) Key.room_name_for_id room_id second).redis;
        })
        (forget-Unknown now name (room_name_key room_id) Key.room_name_for_id room_id second
          (forget-Unknown now name (cache_key key room_id) key room_id st h))

  rest-rooms :
      (c f channel_id room_id : Text) (st : CacheRedis S)
      → hget (Key.rooms c) f (remove_room_rest channel_id room_id st).redis
        ≡ hget (Key.rooms c) f st.redis
  unfolding remove_room_rest
  rest-rooms c f channel_id room_id st =
      let without_roles =
        delete_room_roles room_id
          (forget (cache_key Key.channel_for_rooms room_id) Key.channel_for_rooms room_id st) in
      let unnamed = forget (room_name_key room_id) Key.room_name_for_id room_id without_roles in
      let st' = record unnamed {
        redis = hdel (Key.room_id_for_name channel_id) room_id unnamed.redis;
      } in
      let room_name = hget Key.room_name_for_id room_id without_roles.redis in
      hget-delete_roles (Key.rooms c) f room_id all_roles
        (forget_name channel_id room_name st').redis (λ role. refl)
      ∙ (ap (hget (Key.rooms c) f) (forget_name-redis channel_id room_name st') ∙ grind arith)

  rest-room_id_for_name :
      (c n channel_id room_id : Text) (st : CacheRedis S)
      → n ≢ room_id
      → hget (Key.room_id_for_name c) n (remove_room_rest channel_id room_id st).redis
        ≡ hget (Key.room_id_for_name c) n st.redis
  unfolding remove_room_rest
  rest-room_id_for_name c n channel_id room_id st other =
      let without_roles =
        delete_room_roles room_id
          (forget (cache_key Key.channel_for_rooms room_id) Key.channel_for_rooms room_id st) in
      let unnamed = forget (room_name_key room_id) Key.room_name_for_id room_id without_roles in
      let st' = record unnamed {
        redis = hdel (Key.room_id_for_name channel_id) room_id unnamed.redis;
      } in
      let room_name = hget Key.room_name_for_id room_id without_roles.redis in
      hget-delete_roles (Key.room_id_for_name c) n room_id all_roles
        (forget_name channel_id room_name st').redis (λ role. refl)
      ∙ (ap (hget (Key.room_id_for_name c) n) (forget_name-redis channel_id room_name st')
          ∙ grind (arith, other))

  -- What neither the memory nor Redis knows does not exist.
  Unknown-get_room_exists :
      (now : ℕ) (channel_id room_id : Text) (st : CacheRedis S)
      → Unknown now (cache_key (Key.rooms channel_id) room_id) st
      → hget (Key.rooms channel_id) room_id st.redis ≡ none
      → (get_room_exists now channel_id room_id st).0 ≡ false
  unfolding get_room_exists Unknown
  Unknown-get_room_exists now channel_id room_id st unknown missing =
      ground (arith, unknown, missing)

  -- After a room was removed from a channel, the cache has forgotten that it exists there.
  pub remove_room_exists-forgets :
      (now later : ℕ) (channel_id room_id : Text) (st : CacheRedis S)
      → (get_room_exists later channel_id room_id (remove_room_exists now channel_id room_id st)).0
        ≡ false
  unfolding get_room_exists remove_room_exists
  remove_room_exists-forgets now later channel_id room_id st =
      let name = cache_key (Key.rooms channel_id) room_id in
      let st' = record st {
        cache = set now name nothing 30 st.cache;
        redis = hdel (Key.rooms channel_id) room_id st.redis;
      } in
      Unknown-get_room_exists later channel_id room_id (remove_room_rest channel_id room_id st')
        (remove_room_rest-Unknown later name channel_id room_id st'
          (set-Unknown now later name st'.redis st))
        (rest-rooms channel_id room_id channel_id room_id st'
          ∙ ground (
            arith,
            R.hdel_law (Key.rooms channel_id) (Key.rooms channel_id) room_id room_id st.redis,
          ))

  kept-Unknown :
      (now later : ℕ) (channel_id room_id name : Text) (s : S) (st : CacheRedis S)
      → lookup (cache_key (Key.room_id_for_name channel_id) name) st.cache ≡ none
      → Unknown later (cache_key (Key.room_id_for_name channel_id) name) (record {
        redis = s;
        cache = set now (cache_key (Key.rooms channel_id) room_id) nothing 30 st.cache;
      })
  unfolding Unknown get set
  kept-Unknown now later channel_id room_id name s st missing =
      let id = cache_key (Key.room_id_for_name channel_id) name in
      let exists = cache_key (Key.rooms channel_id) room_id in
      ground (
        arith,
        missing,
        names_differ channel_id channel_id name room_id,
        lookup-insert id exists (now + 30, nothing) st.cache,
      )

  Unknown-read_through :
      (now : ℕ) (name : Text) (key : Key) (field value : Text) (st : CacheRedis S)
      → Unknown now name st
      → hget key field st.redis ≡ some value
      → (read_through now name key field st).0 ≡ some (text value)
  unfolding read_through Unknown
  Unknown-read_through now name key field value st unknown stored = ground (arith, unknown, stored)

  -- But a room that the cache finds by its name it still finds by it: after the room was removed,
  -- under the same channel and name, other than its id, its id is answered if Redis had it and the
  -- memory did not.
  pub remove_room_exists-keeps_id :
      (now later : ℕ) (channel_id room_id name : Text) (st : CacheRedis S)
      → name ≢ room_id
      → hget (Key.room_id_for_name channel_id) name st.redis ≡ some room_id
      → lookup (cache_key (Key.room_id_for_name channel_id) name) st.cache ≡ none
      → (get_room_id_for_name later channel_id name
          (remove_room_exists now channel_id room_id st)).0
        ≡ some (text room_id)
  unfolding get_room_id_for_name remove_room_exists
  remove_room_exists-keeps_id now later channel_id room_id name st other stored missing =
      let id = cache_key (Key.room_id_for_name channel_id) name in
      let st' = record st {
        cache = set now (cache_key (Key.rooms channel_id) room_id) nothing 30 st.cache;
        redis = hdel (Key.rooms channel_id) room_id st.redis;
      } in
      Unknown-read_through later id (Key.room_id_for_name channel_id) name room_id
        (remove_room_rest channel_id room_id st')
        (remove_room_rest-Unknown later id channel_id room_id st'
          (kept-Unknown now later channel_id room_id name st'.redis st missing))
        (rest-room_id_for_name channel_id name channel_id room_id st' other
          ∙ ground (
            arith,
            stored,
            R.hdel_law (Key.room_id_for_name channel_id) (Key.rooms channel_id) name room_id
                st.redis,
          ))
