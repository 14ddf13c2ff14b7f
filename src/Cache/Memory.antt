-- ===== src/Cache/Memory.antt =====
-- MemoryCache of dino/cache/redis.py. The time is a number of seconds, and every method that reads
-- the clock takes it as an argument.
pub mod Laws
use dino.Prelude.{ℕ, ◌+◌, Bool, true, false, Option, none, some, List, [], ◌∷◌, ltb, if◌then◌else◌}
use dino.Prelude.Text.{Text}
use dino.Prelude.Dict.{Dict, lookup, insert, erase, keys}

-- self.vals: the time of expiry and the value of each key
abbrev pub Vals {ℓ} : Type ℓ → Type ℓ
Vals V = Dict (ℕ × V)

module _ {ℓ} {V : Type ℓ} where
  -- MemoryCache.set
  unfoldable pub set : ℕ → Text → V → ℕ → Vals V → Vals V
  set now key value ttl vals = insert key (now + ttl, value) vals

  -- MemoryCache.get: the value, and the cache without the key if it has expired.
  unfoldable pub get : ℕ → Text → Vals V → Option V × Vals V
  get now key vals = elim (lookup key vals) [
    | none ↦ (none, vals)
    | some (expires_at, value) ↦
        if ltb expires_at now then (none, erase key vals) else (some value, vals)
  ]

  abbrev pub expires_before : ℕ → Option (ℕ × V) → Bool
  expires_before now none = false
  expires_before now (some (expires_at, _)) = ltb expires_at now

  -- The loop of `cleanup` over the copy of the dict.
  unfoldable pub cleanup_loop : ℕ → Vals V → List Text → Vals V → Vals V
  cleanup_loop now copy [] vals = vals
  cleanup_loop now copy (key ∷ rest) vals =
      cleanup_loop now copy rest
        (if expires_before now (lookup key copy) then erase key vals else vals)

  -- MemoryCache.cleanup
  unfoldable pub cleanup : ℕ → Vals V → Vals V
  unfolding cleanup_loop
  cleanup now vals = cleanup_loop (now + 31) vals (keys vals) vals

  -- MemoryCache.delete
  unfoldable pub delete : Text → Vals V → Vals V
  delete key vals = erase key vals
