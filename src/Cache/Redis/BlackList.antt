-- ===== src/Cache/Redis/BlackList.antt =====
-- The black list of words: CacheRedis of dino/cache/redis.py.
use dino.Prelude.{
  ℕ, ◌+◌, Bool, true, false, not, ◌||◌, Option, none, some, List, [], ◌∷◌, if◌then◌else◌, ◌≡◌, refl,
  arith, ltb,
}
use dino.Prelude.Text.{Text, str, ◌==◌, contains}
use dino.Prelude.Dict.{lookup-insert}
use dino.Redis.{SetKey, Client, sadd, srem, sismember, delete_set}
use dino.Cache.Memory as Memory
use dino.Cache.Memory.{get, set}
use dino.Cache.Redis.{Value, words, CacheRedis, recall, remember}

abbrev pub cached_list : Text
cached_list = str "words:blacklist"

-- The set in memory; any other value has no `add`.
abbrev pub listed : Option Value → Option (List Text)
listed (some (words l)) = some l
listed _ = none

abbrev pub remove : Text → List Text → List Text
remove word [] = []
remove word (w ∷ l) = let rest = remove word l in if word == w then rest else w ∷ rest

abbrev pub has_value {ℓ} : {A : Type ℓ} → Option A → Bool
has_value none = false
has_value (some _) = true

module _ {S : Type 0} ⦃R : Client S⦄ where
  abbrev pub add_all : List Text → S → S
  add_all [] s = s
  add_all (word ∷ l) s = add_all l (sadd SetKey.black_list word s)

  -- reset_black_list
  unfoldable pub reset_black_list : CacheRedis S → CacheRedis S
  reset_black_list st = record st {
    cache = Memory.delete cached_list st.cache;
    redis = delete_set SetKey.black_list st.redis;
  }

  module _ (now : ℕ) where
    -- get_black_list; what `smembers` answers is never used, since the test is of `value`.
    unfoldable pub get_black_list : CacheRedis S → Option Value × CacheRedis S
    get_black_list st = recall now cached_list st

    -- set_black_list; for no words `sadd` raises, after all else.
    unfoldable pub set_black_list : List Text → CacheRedis S → CacheRedis S
    set_black_list the_list st =
        let st' = remember now cached_list (words the_list) 600 st in
        record st' { redis = add_all the_list (delete_set SetKey.black_list st'.redis) }

    -- add_to_black_list; None is the AttributeError of a list that is not in memory.
    unfoldable pub add_to_black_list : Text → CacheRedis S → Option (CacheRedis S)
    add_to_black_list word st =
        let (value, st') = recall now cached_list st in
        elim (listed value) [
          | none ↦ none
          | some l ↦
              let st'' =
                remember now cached_list (words (if contains l word then l else word ∷ l)) 600
                  st' in
              some (record st'' { redis = sadd SetKey.black_list word st''.redis })
        ]

    -- remove_from_black_list; None is the AttributeError, or the KeyError of a word that is not there.
    unfoldable pub remove_from_black_list : Text → CacheRedis S → Option (CacheRedis S)
    remove_from_black_list word st =
        let (value, st') = recall now cached_list st in
        elim (listed value) [
          | none ↦ none
          | some l ↦
              let st'' = remember now cached_list (words (remove word l)) 600 st' in
              if contains l word
              then some (record st'' { redis = srem SetKey.black_list word st''.redis })
              else none
        ]

  contains-add_all :
      (l : List Text) (x : Text) (s : S)
      → sismember SetKey.black_list x (add_all l s)
        ≡ (contains l x || sismember SetKey.black_list x s)
  contains-add_all [] x s = refl
  contains-add_all (w ∷ l) x s = ground (
    arith,
    contains-add_all l x (sadd SetKey.black_list w s),
    R.sadd_law SetKey.black_list SetKey.black_list x w s,
  )

  -- A black list that was set is answered for ten minutes, and then is None, from which a word
  -- cannot be added either, although Redis has exactly its words all the time.
  pub get_black_list-set_black_list :
      (now later : ℕ) (the_list : List Text) (x : Text) (st : CacheRedis S)
      → ((get_black_list later (set_black_list now the_list st)).0
          ≡ (if ltb (now + 600) later then none else some (words the_list)))
        × (has_value (add_to_black_list later x (set_black_list now the_list st))
            ≡ not (ltb (now + 600) later))
        × (sismember SetKey.black_list x (set_black_list now the_list st).redis
            ≡ contains the_list x)
  unfolding get_black_list set_black_list add_to_black_list get set
  get_black_list-set_black_list now later the_list x st = (
    ground (arith, lookup-insert cached_list cached_list (now + 600, words the_list) st.cache),
    ground (arith, lookup-insert cached_list cached_list (now + 600, words the_list) st.cache),
    ground (
      arith,
      contains-add_all the_list x (delete_set SetKey.black_list st.redis),
      R.delete_set_law SetKey.black_list SetKey.black_list x st.redis,
    ),
  )
