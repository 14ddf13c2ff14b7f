-- ===== src/Storage/Acks.antt =====
-- Acknowledgements in dino/storage/redis.py.
use dino.Prelude.{
  ℕ, Bool, true, ◌&&◌, some, List, [], ◌∷◌, if◌then◌else◌, ◌≡◌, refl, arith, any, ◌∙◌,
}
use dino.Prelude.Text.{Text, ◌==◌, contains}
use dino.Prelude.Result.{ok, err}
use dino.Generic.Decimal.{show}
use dino.Redis.{Key, SetKey, Client, hget, hset, hexists, sadd}
use dino.Storage.{
  type_error, get_acks_for, update_acks_with_status, mark_as_status, mark_as_received, mark_as_read,
}

any-contains :
    (p : Text → Bool) (x : Text) (ids : List Text)
    → contains ids x ≡ true
    → p x ≡ true
    → any p ids ≡ true
any-contains p x [] h e = absurd (ground (arith, h))
any-contains p x (i ∷ ids) h e = grind (arith, h, e, any-contains p x ids)

module _ {S : Type 0} ⦃R : Client S⦄ where
  hget-update_acks :
      (j receiver_id target_id x : Text) (status : ℕ) (ids : List Text) (s : S)
      → hget (Key.ack_for_user j) x (update_acks_with_status receiver_id target_id status ids s) ≡ (
          if j == receiver_id && contains ids x
          then some (show status)
          else hget (Key.ack_for_user j) x s)
  unfolding update_acks_with_status
  hget-update_acks j receiver_id target_id x status [] s = ground arith
  hget-update_acks j receiver_id target_id x status (i ∷ ids) s =
      hget-update_acks j receiver_id target_id x status ids (
        sadd (SetKey.ack_for_room target_id) i
          (hset (Key.ack_for_user receiver_id) i (show status) s))
      ∙ grind arith

  -- Some of the messages have been acknowledged.
  abbrev pub acked : Text → List Text → S → Bool
  acked receiver_id ids s = any (λ x. hexists (Key.ack_for_user receiver_id) x s) ids

  get_acks_for-acked :
      (receiver_id : Text) (ids : List Text) (s : S)
      → get_acks_for receiver_id ids s ≡ (if acked receiver_id ids s then err type_error else ok tt)
  unfolding get_acks_for
  get_acks_for-acked receiver_id [] s = refl
  get_acks_for-acked receiver_id (i ∷ ids) s = ground (arith, get_acks_for-acked receiver_id ids s)

  -- Messages that have no acknowledgement of the receiver's are given the status, all of them and no
  -- others.
  pub mark_as_status-hget :
      (status : ℕ) (ids : List Text) (receiver_id target_id : Text) (s s' : S)
      → mark_as_status status ids receiver_id target_id s ≡ ok s'
      → (j x : Text)
      → hget (Key.ack_for_user j) x s' ≡ (
          if j == receiver_id && contains ids x
          then some (show status)
          else hget (Key.ack_for_user j) x s)
  unfolding mark_as_status
  mark_as_status-hget status ids receiver_id target_id s s' marked j x = ground (
    arith,
    marked,
    get_acks_for-acked receiver_id ids s,
    hget-update_acks j receiver_id target_id x status ids s,
  )

  -- Messages marked as received cannot be marked as read: once a message has been marked for a
  -- receiver, marking any messages with it among them for that receiver raises a TypeError.
  pub mark_as_read-received :
      (ids later : List Text) (receiver_id target_id x : Text) (s s' : S)
      → mark_as_received ids receiver_id target_id s ≡ ok s'
      → contains ids x ≡ true
      → contains later x ≡ true
      → mark_as_read later receiver_id target_id s' ≡ err type_error
  unfolding mark_as_received mark_as_read mark_as_status
  mark_as_read-received ids later receiver_id target_id x s s' marked first again =
      let read = mark_as_status-hget 1 ids receiver_id target_id s s' marked receiver_id x in
      ground (
        arith,
        get_acks_for-acked receiver_id later s',
        any-contains (λ y. hexists (Key.ack_for_user receiver_id) y s') x later again
            (ground (arith, read, first)),
      )
