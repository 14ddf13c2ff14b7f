-- ===== src/Redis/Commands.antt =====
-- The commands of Redis on the bitmap RedisKeys.online_bitmap() and the sorted set
-- RedisKeys.user_status_changed_at(), and what of a server a client can read besides its hashes.
use dino.Prelude.{
  ℕ, suc, ap, [], ◌∷◌, Bool, not, ◌&&◌, ◌||◌, Option, some, if◌then◌else◌, ◌≡◌, refl, eqb, leb, ltb,
  true, false,
}
use dino.Prelude.Int.{ℤ, pos, negsuc}
use dino.Prelude.Text.{Text, ◌==◌, contains}
use dino.Prelude.Dict.{Dict, insert}
use dino.Redis.{SetKey, TextKey, same_set, same_text_key, Client}
use dino.Redis.Model.{Server, model, contains-sadd, contains-srem}

pub record View : Type 0 where
  pub bits : ℕ → Bool
  pub sets : SetKey → Text → Bool
  pub texts : TextKey → Option Text

abbrev pub with_bit : ℕ → Bool → View → View
with_bit n b w = record w { bits = λ m. if eqb m n then b else w.bits m }

abbrev pub with_member : SetKey → Text → View → View
with_member k y w = record w { sets = λ j x. (same_set j k && x == y) || w.sets j x }

abbrev pub without_member : SetKey → Text → View → View
without_member k y w = record w { sets = λ j x. not (same_set j k && x == y) && w.sets j x }

abbrev pub with_text : TextKey → Text → View → View
with_text k v w = record w { texts = λ j. if same_text_key j k then some v else w.texts j }

-- The offsets that SETBIT takes: those below 2^32
abbrev pub is_offset : ℤ → Bool
is_offset (pos n) = ltb n 4294967296
is_offset (negsuc n) = false

-- A client with these commands. Each changes what is read of its key, and nothing else.
-- The server refuses a SETBIT at another offset, and stays as it is.
pub record Commands (S : Type 0) (R : Client S) : Type 0 where
  pub see : S → View
  pub run_setbit : ℤ → Bool → S → S
  pub run_zadd : Text → ℕ → S → S
  pub run_zremrangebyscore : ℕ → ℕ → S → S
  pub run_expire_text : TextKey → ℕ → S → S
  pub see_sets : (k : SetKey) (x : Text) (s : S) → R.run_sismember k x s ≡ (see s).sets k x
  pub see_texts : (k : TextKey) (s : S) → R.run_get k s ≡ (see s).texts k
  pub see-setbit :
      (n : ℕ) (b : Bool) (s : S)
      → is_offset (pos n) ≡ true
      → see (run_setbit (pos n) b s) ≡ with_bit n b (see s)
  pub setbit-refused : (i : ℤ) (b : Bool) (s : S) → is_offset i ≡ false → run_setbit i b s ≡ s
  pub see-zadd : (x : Text) (n : ℕ) (s : S) → see (run_zadd x n s) ≡ see s
  pub see-zrem : (n m : ℕ) (s : S) → see (run_zremrangebyscore n m s) ≡ see s
  -- A time to live changes nothing before it has passed.
  pub see-expire : (k : TextKey) (n : ℕ) (s : S) → see (run_expire_text k (suc n) s) ≡ see s
  pub see-sadd : (k : SetKey) (y : Text) (s : S) → see (R.run_sadd k y s) ≡ with_member k y (see s)
  pub see-srem :
      (k : SetKey) (y : Text) (s : S) → see (R.run_srem k y s) ≡ without_member k y (see s)
  pub see-set : (k : TextKey) (v : Text) (s : S) → see (R.run_set k v s) ≡ with_text k v (see s)

module _ {S : Type 0} ⦃R : Client S⦄ ⦃C : Commands S R⦄ where
  abbrev pub see : S → View
  see = C.see

  abbrev pub setbit : ℤ → Bool → S → S
  setbit = C.run_setbit

  abbrev pub zadd : Text → ℕ → S → S
  zadd = C.run_zadd

  abbrev pub zremrangebyscore : ℕ → ℕ → S → S
  zremrangebyscore = C.run_zremrangebyscore

  abbrev pub expire_text : TextKey → ℕ → S → S
  expire_text = C.run_expire_text

abbrev pub view : Server → View
view s = record { bits = s.bits; sets = λ k x. contains (s.sets k) x; texts = s.texts }

abbrev without_scores : ℕ → ℕ → Dict ℕ → Dict ℕ
without_scores low high [] = []
without_scores low high ((k, n) ∷ d) =
    let rest = without_scores low high d in if leb low n && leb n high then rest else (k, n) ∷ rest

abbrev is_at : ℤ → ℕ → Bool
is_at (pos n) m = eqb m n
is_at (negsuc n) m = false

abbrev pub set_bit : ℤ → Bool → Server → Server
set_bit i b s =
    if is_offset i then record s { bits = λ m. if is_at i m then b else s.bits m } else s

pub set_bit-taken :
    (n : ℕ) (b : Bool) (s : Server)
    → is_offset (pos n) ≡ true
    → set_bit (pos n) b s ≡ record s { bits = λ m. if eqb m n then b else s.bits m }
set_bit-taken n b s taken = rw taken refl

pub set_bit-refused : (i : ℤ) (b : Bool) (s : Server) → is_offset i ≡ false → set_bit i b s ≡ s
set_bit-refused i b s refused = rw refused refl

instance abbrev pub commands : Commands Server model
commands = record {
  see = view;
  run_setbit = set_bit;
  run_zadd = λ x n s. record s { scores = insert x n s.scores };
  run_zremrangebyscore = λ n m s. record s { scores = without_scores n m s.scores };
  run_expire_text = λ k n s. s;
  see_sets = λ k x s. refl;
  see_texts = λ k s. refl;
  see-setbit = λ n b s taken. ap view (set_bit-taken n b s taken);
  setbit-refused = set_bit-refused;
  see-zadd = λ x n s. refl;
  see-zrem = λ n m s. refl;
  see-expire = λ k n s. refl;
  see-sadd = λ k y s. ap (λ f. record (view s) { sets = f }) (λ i j x. contains-sadd j k x y s i);
  see-srem = λ k y s. ap (λ f. record (view s) { sets = f }) (λ i j x. contains-srem j k x y s i);
  see-set = λ k v s. refl;
}
