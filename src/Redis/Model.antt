-- ===== src/Redis/Model.antt =====
-- A server that keeps the laws of a Redis client, as a function of the key.
use dino.Prelude.{
  ℕ, Bool, Option, some, not, false, ◌&&◌, ◌||◌, none, some, List, [], ◌∷◌, if◌then◌else◌, ◌≡◌,
  refl, arith,
}
use dino.Prelude.Text.{Text, ◌==◌, contains}
use dino.Prelude.Dict.{Dict, lookup, insert, erase, lookup-insert, lookup-erase, lookup-nil}
use dino.Redis.{TextKey, same_text_key, Key, SetKey, same_key, same_set, Client}

pub record Server : Type 0 where
  pub hashes : Key → Dict Text
  pub sets : SetKey → List Text
  pub texts : TextKey → Option Text
  pub bits : ℕ → Bool
  pub scores : Dict ℕ
  pub ttls : Key → Option ℕ

-- The entries of a dict, put into another one.
unfoldable pub insert_all : Dict Text → Dict Text → Dict Text
insert_all [] d = d
insert_all ((k, v) ∷ new) d = insert k v (insert_all new d)

abbrev pub change : Key → (Dict Text → Dict Text) → Server → Server
change k f s = record s { hashes = λ j. if same_key j k then f (s.hashes j) else s.hashes j }

abbrev pub without : Text → List Text → List Text
without x [] = []
without x (y ∷ l) = let rest = without x l in if x == y then rest else y ∷ rest

lookup-insert_all :
    (k : Text) (new d : Dict Text)
    → lookup k (insert_all new d) ≡ elim (lookup k new) [ none ↦ lookup k d | some v ↦ some v ]
unfolding insert_all lookup
lookup-insert_all k [] d = refl
lookup-insert_all k ((j, v) ∷ new) d =
    ground (arith, lookup-insert k j v (insert_all new d), lookup-insert_all k new d)

module _ (j k : Key) (s : Server) where
  pub lookup-hset :
      (f g v : Text)
      → lookup f ((change k (insert g v) s).hashes j)
        ≡ (if same_key j k && f == g then some v else lookup f (s.hashes j))
  lookup-hset f g v = ground (arith, lookup-insert f g v (s.hashes j))

  pub lookup-hmset :
      (f : Text) (d : Dict Text)
      → lookup f ((change k (insert_all d) s).hashes j) ≡ (
          if same_key j k
          then elim (lookup f d) [ none ↦ lookup f (s.hashes j) | some v ↦ some v ]
          else lookup f (s.hashes j))
  lookup-hmset f d = ground (arith, lookup-insert_all f d (s.hashes j))

  pub lookup-hdel :
      (f g : Text)
      → lookup f ((change k (erase g) s).hashes j)
        ≡ (if same_key j k && f == g then none else lookup f (s.hashes j))
  lookup-hdel f g = ground (arith, lookup-erase f g (s.hashes j))

  pub lookup-delete :
      (f : Text)
      → lookup f ((change k (λ _. []) s).hashes j)
        ≡ (if same_key j k then none else lookup f (s.hashes j))
  lookup-delete f = ground (arith, lookup-nil {V = Text} f)

pub contains-sadd :
    (j k : SetKey) (x y : Text) (s : Server)
    → contains (if same_set j k then y ∷ s.sets j else s.sets j) x
      ≡ ((same_set j k && x == y) || contains (s.sets j) x)
contains-sadd j k x y s = ground arith

contains-without :
    (x y : Text) (l : List Text) → contains (without y l) x ≡ (not (x == y) && contains l x)
contains-without x y [] = ground arith
contains-without x y (z ∷ l) = ground (arith, contains-without x y l)

pub contains-srem :
    (j k : SetKey) (x y : Text) (s : Server)
    → contains (if same_set j k then without y (s.sets j) else s.sets j) x
      ≡ (not (same_set j k && x == y) && contains (s.sets j) x)
contains-srem j k x y s = ground (arith, contains-without x y (s.sets j))

pub contains-delete_set :
    (j k : SetKey) (x : Text) (s : Server)
    → contains (if same_set j k then [] else s.sets j) x
      ≡ (if same_set j k then false else contains (s.sets j) x)
contains-delete_set j k x s = ground arith

instance abbrev pub model : Client Server
model = record {
  run_hget = λ k f s. lookup f (s.hashes k);
  run_hgetall = λ k s. s.hashes k;
  run_hset = λ k f v s. change k (insert f v) s;
  run_hmset = λ k d s. change k (insert_all d) s;
  run_hdel = λ k f s. change k (erase f) s;
  run_delete =
      λ k s. record (change k (λ _. []) s) { ttls = λ j. if same_key j k then none else s.ttls j };
  run_expire = λ k n s. record s { ttls = λ j. if same_key j k then some n else s.ttls j };
  run_sismember = λ k x s. contains (s.sets k) x;
  run_smembers = λ k s. s.sets k;
  run_delete_set = λ k s. record s { sets = λ j. if same_set j k then [] else s.sets j };
  run_sadd = λ k x s. record s { sets = λ j. if same_set j k then x ∷ s.sets j else s.sets j };
  run_srem =
      λ k x s. record s { sets = λ j. if same_set j k then without x (s.sets j) else s.sets j };
  run_get = λ k s. s.texts k;
  run_set = λ k v s. record s { texts = λ j. if same_text_key j k then some v else s.texts j };
  set_law = λ j k v s. refl;
  hgetall_law = λ k f s. refl;
  hset_law = λ j k f g v s. lookup-hset j k s f g v;
  hmset_law = λ j k f d s. lookup-hmset j k s f d;
  hdel_law = λ j k f g s. lookup-hdel j k s f g;
  delete_law = λ j k f s. lookup-delete j k s f;
  hget-expire = λ j k f n s. refl;
  hget-sadd = λ j k f x s. refl;
  hget-srem = λ j k f x s. refl;
  smembers_law = λ k x s. refl;
  delete_set_law = λ j k x s. contains-delete_set j k x s;
  srem_law = λ j k x y s. contains-srem j k x y s;
  sadd_law = λ j k x y s. contains-sadd j k x y s;
}
