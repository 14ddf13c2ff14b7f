-- ===== src/Storage/History.antt =====
-- What get_history of dino/storage/redis.py returns after store_message.
use dino.Prelude.{
  ℕ, zero, suc, Option, none, some, List, [], ◌∷◌, take, eqb, if◌then◌else◌, ◌≡◌, refl, arith, ap,
  ◌∙◌, inl, inr,
}
use dino.Prelude.Text.{Text, join}
use dino.Prelude.Split.{Lacks}
use dino.Prelude.Result.{ok, Result-cases}
use dino.Db.Bans.{split_max}
use dino.Db.Bans.Expiry.{split_max-append}
use dino.Storage.{
  Lists, Settings, Message, Shown, entry, clean, show_parts, up_to, store_message, get_history,
}

-- The message as it is to be returned
abbrev pub shown : Message → Text → Shown
shown m body = record {
  message_id = m.id;
  from_user_id = m.user_id;
  from_user_name = m.user_name;
  target_id = m.target_id;
  target_name = m.target_name;
  body = body;
  channel_id = m.channel_id;
  channel_name = m.channel_name;
  timestamp = m.published;
}

module _ (c : Settings) where
  -- No part but the message itself has the separator in it, and the names are decoded to what they
  -- were.
  abbrev pub IsStorable : Message → Type 0
  IsStorable m =
      Lacks b',' m.id
      × Lacks b',' m.published
      × Lacks b',' m.user_id
      × Lacks b',' (c.b64e m.user_name)
      × Lacks b',' (c.b64e m.target_name)
      × Lacks b',' m.channel_id
      × Lacks b',' (c.b64e m.channel_name)
      × (c.b64d (c.b64e m.user_name) ≡ m.user_name)
      × (c.b64d (c.b64e m.target_name) ≡ m.target_name)
      × (c.b64d (c.b64e m.channel_name) ≡ m.channel_name)

  split_max-entry :
      (m : Message)
      → IsStorable m
      → split_max b',' 7 (entry c m)
        ≡ m.id
          ∷ m.published
          ∷ m.user_id
          ∷ c.b64e m.user_name
          ∷ c.b64e m.target_name
          ∷ m.channel_id
          ∷ c.b64e m.channel_name
          ∷ m.content
          ∷ []
  unfolding join split_max
  split_max-entry m (i, at, u, n, t, k, h, un, tn, cn) =
      rw
        (
          split_max-append b',' 6 _ _ i,
          split_max-append b',' 5 _ _ at,
          split_max-append b',' 4 _ _ u,
          split_max-append b',' 3 _ _ n,
          split_max-append b',' 2 _ _ t,
          split_max-append b',' 1 _ _ k,
          split_max-append b',' 0 _ _ h,
        )
        refl

  show_parts-entry :
      (m : Message)
      → IsStorable m
      → show_parts c m.target_id (split_max b',' 7 (entry c m)) ≡ ok (shown m (c.b64d m.content))
  show_parts-entry m (i, at, u, n, t, k, h, un, tn, cn) =
      ap (show_parts c m.target_id) (split_max-entry m (i, at, u, n, t, k, h, un, tn, cn))
      ∙ rw (un, tn, cn) refl

  clean-take :
      (room_id : Text) (n : ℕ) (l : List Text) (ms : List Shown)
      → clean c room_id l ≡ ok ms
      → clean c room_id (take n l) ≡ ok (take n ms)
  unfolding clean
  clean-take room_id zero l ms h = refl
  clean-take room_id (suc n) [] ms h = ground (arith, h)
  clean-take room_id (suc n) (e ∷ l) ms h =
      elim (Result-cases (show_parts c room_id (split_max b',' 7 e))) [
        | inr (x, bad) ↦ absurd (ground (arith, h, bad))
        | inl (m, good) ↦ elim (Result-cases (clean c room_id l)) [
          | inr (x, bad) ↦ absurd (ground (arith, h, good, bad))
          | inl (rest, cleaned) ↦
              ground (arith, h, good, cleaned, clean-take room_id n l rest cleaned)
        ]
      ]

  clean-up_to :
      (room_id : Text) (limit : Option ℕ) (l : List Text) (ms : List Shown)
      → clean c room_id l ≡ ok ms
      → clean c room_id (up_to limit l) ≡ ok (up_to limit ms)
  clean-up_to room_id none l ms h = h
  clean-up_to room_id (some n) l ms h = clean-take room_id (suc n) l ms h

  clean-cons :
      (m : Message) (l : List Text) (ms : List Shown)
      → IsStorable m
      → clean c m.target_id l ≡ ok ms
      → clean c m.target_id (entry c m ∷ l) ≡ ok (shown m (c.b64d m.content) ∷ ms)
  unfolding clean
  clean-cons m l ms fine h = ground (arith, show_parts-entry m fine, h)

  -- The length to which the history is kept
  abbrev pub kept {ℓ} : {A : Type ℓ} → List A → List A
  kept l = if eqb c.max_history 0 then l else take (suc c.max_history) l

  clean-kept :
      (room_id : Text) (l : List Text) (ms : List Shown)
      → clean c room_id l ≡ ok ms
      → clean c room_id (kept l) ≡ ok (kept ms)
  clean-kept room_id l ms h = ground (arith, h, clean-take room_id (suc c.max_history) l ms h)

module _ {S : Type 0} ⦃L : Lists S⦄ (c : Settings) where
  lrange-store_message :
      (m : Message) (s s' : S)
      → store_message c m s ≡ ok s'
      → L.lrange_all m.target_id s' ≡ kept c (entry c m ∷ L.lrange_all m.target_id s)
  unfolding store_message
  lrange-store_message m s s' stored = ground (
    arith,
    stored,
    L.lpush_law m.target_id m.target_id (entry c m) s,
    L.ltrim_law m.target_id m.target_id c.max_history (L.run_lpush m.target_id (entry c m) s),
  )

  -- A message that was stored is the first of the history that is returned, with its body and the
  -- names decoded, before the messages of the room that were there, up to the length of the history
  -- and the limit. The separator is in none of its parts but the body, what was encoded is decoded to what it
  -- was, and the old entries can be read.
  pub get_history-store_message :
      (m : Message) (limit : Option ℕ) (s s' : S) (old : List Shown)
      → IsStorable c m
      → get_history c m.target_id none s ≡ ok old
      → store_message c m s ≡ ok s'
      → get_history c m.target_id limit s'
        ≡ ok (up_to limit (kept c (shown m (c.b64d m.content) ∷ old)))
  unfolding get_history
  get_history-store_message m limit s s' old fine read stored =
      ap (λ l. clean c m.target_id (up_to limit l)) (lrange-store_message m s s' stored)
      ∙ clean-up_to c m.target_id limit _ _
          (clean-kept c m.target_id _ _ (clean-cons c m (L.lrange_all m.target_id s) old fine read))
