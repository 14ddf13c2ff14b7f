-- ===== src/Cache/Memory/Laws.antt =====
-- What MemoryCache of dino/cache/redis.py keeps, and what its cleanup throws away.
use dino.Prelude.{
  ℕ, ◌+◌, ◌≤◌, ◌&&◌, none, some, List, [], ◌∷◌, ◌≡◌, refl, arith, ltb, if◌then◌else◌,
}
use dino.Prelude.Text.{Text, ◌==◌, contains}
use dino.Prelude.Dict.{lookup, insert, erase, keys, lookup-insert, lookup-erase, contains-keys}
use dino.Cache.Memory.{Vals, set, get, expires_before, cleanup_loop, cleanup}

module _ {ℓ} {V : Type ℓ} where
  -- A key reads as it was set last until its time has passed, and then as absent; other keys read
  -- as before.
  pub get-set :
      (now later ttl : ℕ) (j key : Text) (value : V) (vals : Vals V)
      → (get later j (set now key value ttl vals)).0 ≡ (
          if j == key
          then (if ltb (now + ttl) later then none else some value)
          else (get later j vals).0)
  unfolding get set
  get-set now later ttl j key value vals =
      ground (arith, lookup-insert j key (now + ttl, value) vals)

  lookup-cleanup_loop :
      (now : ℕ) (j : Text) (copy : Vals V) (ks : List Text) (vals : Vals V)
      → lookup j (cleanup_loop {V = V} now copy ks vals)
        ≡ (if contains ks j && expires_before now (lookup j copy) then none else lookup j vals)
  unfolding cleanup_loop
  lookup-cleanup_loop now j copy [] vals = refl
  lookup-cleanup_loop now j copy (k ∷ ks) vals = ground (
    arith,
    lookup-cleanup_loop now j copy ks
        (if expires_before now (lookup k copy) then erase k vals else vals),
    lookup-erase j k vals,
  )

  lookup-cleanup :
      (now : ℕ) (j : Text) (vals : Vals V)
      → lookup j (cleanup {V = V} now vals)
        ≡ (if expires_before (now + 31) (lookup j vals) then none else lookup j vals)
  unfolding cleanup
  lookup-cleanup now j vals =
      ground (arith, lookup-cleanup_loop (now + 31) j vals (keys vals) vals, contains-keys vals j)

  -- The cleanup changes nothing for a reader that comes more than 30 seconds later.
  pub get-cleanup_later :
      (now later : ℕ) (j : Text) (vals : Vals V)
      → now + 31 ≤ later
      → (get later j (cleanup {V = V} now vals)).0 ≡ (get later j vals).0
  unfolding get
  get-cleanup_later now later j vals h = ground (arith, lookup-cleanup now j vals)

  -- But it deletes what has not expired: a key that was set for up to 30 seconds, the default, is
  -- gone after any cleanup at or behind the time at which it was set, even at once, while without
  -- the cleanup it would still read.
  pub cleanup-drops_live :
      (set_at now ttl : ℕ) (key : Text) (value : V) (vals : Vals V)
      → ttl ≤ 30
      → set_at ≤ now
      → now ≤ set_at + ttl
      → ((get now key (set set_at key value ttl vals)).0 ≡ some value)
        × ((get now key (cleanup now (set set_at key value ttl vals))).0 ≡ none)
  unfolding get set
  cleanup-drops_live set_at now ttl key value vals short started live = ground (
    arith,
    lookup-cleanup now key (insert key (set_at + ttl, value) vals),
    lookup-insert key key (set_at + ttl, value) vals,
  )
