-- ===== src/Redis/Lapse.antt =====
-- What the time does to the hashes of the Redis server: a key with a time to live is dropped when
-- that has passed.
use dino.Prelude.{
  ℕ, suc, ◌-◌, Bool, false, Option, none, some, [], leb, arith, if◌then◌else◌, ◌≡◌, refl,
}
use dino.Prelude.Text.{Text}
use dino.Prelude.Dict.{lookup}
use dino.Redis.{Key, same_key, Client}
use dino.Redis.Model.{Server, model}

-- Whether the time to live that is left is over after so many seconds
abbrev pub lapsed : ℕ → Option ℕ → Bool
lapsed n none = false
lapsed n (some left) = leb left n

-- A client whose server has times to live: `run_pass n` is the server `n` seconds later, if nobody
-- calls it. EXPIRE works on a key that is there; HSET leaves the time to live.
pub record Lapse (S : Type 0) (R : Client S) : Type 0 where
  pub run_ttl : Key → S → Option ℕ
  pub run_pass : ℕ → S → S
  pub ttl-hset : (j k : Key) (f v : Text) (s : S) → run_ttl j (R.run_hset k f v s) ≡ run_ttl j s
  pub ttl-expire :
      (j k : Key) (f v : Text) (n : ℕ) (s : S)
      → R.run_hget k f s ≡ some v
      → run_ttl j (R.run_expire k (suc n) s) ≡ (if same_key j k then some (suc n) else run_ttl j s)
  pub hget-pass :
      (k : Key) (f : Text) (n : ℕ) (s : S)
      → R.run_hget k f (run_pass n s) ≡ (if lapsed n (run_ttl k s) then none else R.run_hget k f s)

abbrev pub left_after : ℕ → Option ℕ → Option ℕ
left_after n none = none
left_after n (some left) = if leb left n then none else some (left - n)

abbrev pub pass_model : ℕ → Server → Server
pass_model n s = record s {
  hashes = λ k. if lapsed n (s.ttls k) then [] else s.hashes k;
  ttls = λ k. left_after n (s.ttls k);
}

pub lookup-pass :
    (k : Key) (f : Text) (n : ℕ) (s : Server)
    → lookup f ((pass_model n s).hashes k)
      ≡ (if lapsed n (s.ttls k) then none else lookup f (s.hashes k))
unfolding lookup
lookup-pass k f n s = ground arith

instance abbrev pub lapse : Lapse Server model
lapse = record {
  run_ttl = λ k s. s.ttls k;
  run_pass = pass_model;
  ttl-hset = λ j k f v s. refl;
  ttl-expire = λ j k f v n s there. refl;
  hget-pass = lookup-pass;
}

module _ {S : Type 0} ⦃R : Client S⦄ ⦃L : Lapse S R⦄ where
  abbrev pub ttl : Key → S → Option ℕ
  ttl = L.run_ttl

  abbrev pub pass : ℕ → S → S
  pass = L.run_pass
