-- ===== src/Storage/Bounds.antt =====
-- How long a history of dino/storage/redis.py gets, and how much of it is returned.
use dino.Prelude.{
  ℕ, zero, suc, inl, inr, ◌+◌, ◌≤◌, some, List, [], ◌∷◌, length, take, ltb, if◌then◌else◌, ◌≡◌,
  arith,
}
use dino.Prelude.Text.{Text}
use dino.Prelude.Result.{ok, Result-cases}
use dino.Db.Bans.{split_max}
use dino.Storage.{
  Lists, Settings, Message, Shown, entry, clean, show_parts, store_message, get_history,
}

module _ {ℓ} {A : Type ℓ} where
  pub length-take :
      (n : ℕ) (l : List A) → length (take n l) ≡ (if ltb (length l) n then length l else n)
  length-take zero l = ground arith
  length-take (suc n) [] = ground arith
  length-take (suc n) (x ∷ l) = ground (arith, length-take n l)

length-clean :
    (c : Settings) (room_id : Text) (l : List Text) (ms : List Shown)
    → clean c room_id l ≡ ok ms
    → length ms ≡ length l
unfolding clean
length-clean c room_id [] ms h = ground (arith, h)
length-clean c room_id (e ∷ l) ms h =
    elim (Result-cases (show_parts c room_id (split_max b',' 7 e))) [
      | inr (x, bad) ↦ absurd (ground (arith, h, bad))
      | inl (m, good) ↦ elim (Result-cases (clean c room_id l)) [
        | inr (x, bad) ↦ absurd (ground (arith, h, good, bad))
        | inl (rest, cleaned) ↦
            ground (arith, h, good, cleaned, length-clean c room_id l rest cleaned)
      ]
    ]

module _ {S : Type 0} ⦃L : Lists S⦄ (c : Settings) where
  -- Where the length of the history is set, storing a message leaves at most one entry more than that
  -- in the room, and exactly one more if there were as many already: the last index of a range is
  -- part of it.
  pub store_message-bounds :
      (m : Message) (s s' : S)
      → (1 ≤ c.max_history)
      → store_message c m s ≡ ok s'
      → (length (L.lrange_all m.target_id s') ≤ c.max_history + 1)
        × (length (L.lrange_all m.target_id s') ≡ (
            if ltb (length (L.lrange_all m.target_id s)) c.max_history
            then length (L.lrange_all m.target_id s) + 1
            else c.max_history + 1))
  unfolding store_message
  store_message-bounds m s s' limited stored = ground (
    arith,
    limited,
    stored,
    L.lpush_law m.target_id m.target_id (entry c m) s,
    L.ltrim_law m.target_id m.target_id c.max_history (L.run_lpush m.target_id (entry c m) s),
    length-take (suc c.max_history) (entry c m ∷ L.lrange_all m.target_id s),
  )

  -- At most one message more than the limit is returned, and exactly one more if there are as many.
  pub get_history-bounds :
      (room_id : Text) (limit : ℕ) (s : S) (ms : List Shown)
      → get_history c room_id (some limit) s ≡ ok ms
      → length ms ≡ (
          if ltb (length (L.lrange_all room_id s)) (limit + 1)
          then length (L.lrange_all room_id s)
          else limit + 1)
  unfolding get_history
  get_history-bounds room_id limit s ms h = ground (
    arith,
    length-clean c room_id (take (suc limit) (L.lrange_all room_id s)) ms h,
    length-take (suc limit) (L.lrange_all room_id s),
  )
