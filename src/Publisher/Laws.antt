-- ===== src/Publisher/Laws.antt =====
-- What a publisher of dino/endpoint/base.py guarantees if its calls come one after the other.
use dino.Prelude.{
  ℕ, suc, ◌+◌, ◌≤◌, Bool, true, false, not, ◌&&◌, ◌||◌, Option, List, [], ◌∷◌, ◌++◌, ltb,
  if◌then◌else◌, length, length-append, ◌≡◌, refl, ap, ◌∙◌, arith, Bool-cases, inl, inr,
}
use mathlib.Core.List.{append_assoc}
use dino.Prelude.Text.{Text, contains, contains-append}
use dino.Publisher.{
  Publisher, topic_msg_hash, recently_sent_has, update_recently_sent, publish_loop, publish,
}
use dino.Publisher.Window.{IsWindow, Updates, slide, update-Updates}

-- One of the three tries reaches the queue.
abbrev pub gets_through : (ℕ → Bool) → Bool
gets_through reaches = reaches 0 || reaches 1 || reaches 2

update_lem :
    (hash : Text) (p : Publisher) → IsWindow p → recently_sent_has hash p ≡ false → Updates hash p
unfolding recently_sent_has
update_lem hash p w fresh =
    update-Updates hash p.recently_sent_external_hash fresh p.recently_sent_external_list w

publish_loop_lem :
    (reaches : ℕ → Bool) (hash : Text) (p : Publisher)
    → (update_recently_sent hash p).1 ≡ true
    → publish_loop reaches hash 0 3 p 0 ≡ (
        if gets_through reaches
        then record { publisher = (update_recently_sent hash p).0; delivered = 1; failed = false }
        else record { publisher = p; delivered = 0; failed = true })
unfolding publish_loop
publish_loop_lem reaches hash p returned = ground (arith, returned)

-- In a window, a message that was sent recently is not sent again; any other one is sent once if
-- one of three tries gets through, and raises PublishException if none does. The window stays one.
pub publish_lem :
    (reaches : ℕ → Bool) (topic : Option Text) (msg_id : Text) (p : Publisher)
    → IsWindow p
    → ((publish reaches topic msg_id p).delivered ≡ (
        if not (recently_sent_has (topic_msg_hash topic msg_id) p) && gets_through reaches
        then 1
        else 0))
      × ((publish reaches topic msg_id p).failed
          ≡ (not (recently_sent_has (topic_msg_hash topic msg_id) p) && not (gets_through reaches)))
      × IsWindow (publish reaches topic msg_id p).publisher
unfolding publish
publish_lem reaches topic msg_id p w =
    elim (Bool-cases (recently_sent_has (topic_msg_hash topic msg_id) p)) [
      | inl known ↦ rw known (refl, refl, w)
      | inr fresh ↦
          let hash = topic_msg_hash topic msg_id in
          let u = update_lem hash p w fresh in
          rw (fresh, publish_loop_lem reaches hash p u.returned)
            (elim (Bool-cases (gets_through reaches)) [
              | inl through ↦ rw through (refl, refl, u.window)
              | inr lost ↦ rw lost (refl, refl, w)
            ])
    ]

-- The id is in the list with at most `n` behind it.
record IsRecent (hash : Text) (n : ℕ) (sent : List Text) : Type 0 where
  before : List Text
  behind : List Text
  parts : sent ≡ before ++ hash ∷ behind
  close : length behind ≤ n

IsRecent-slide :
    (hash x : Text) (n : ℕ) (sent : List Text)
    → suc n ≤ 99
    → IsRecent hash n sent
    → IsRecent hash (suc n) (slide (sent ++ x ∷ []))
IsRecent-slide hash x n sent h r = rw shape (go r.before)
  where
    shape : sent ++ x ∷ [] ≡ r.before ++ hash ∷ (r.behind ++ x ∷ [])
    shape = ap (λ l. l ++ x ∷ []) r.parts ∙ append_assoc r.before (hash ∷ r.behind) (x ∷ [])

    go : (a : List Text) → IsRecent hash (suc n) (slide (a ++ hash ∷ (r.behind ++ x ∷ [])))
    go [] = record {
      before = [];
      behind = r.behind ++ x ∷ [];
      parts = ground (arith, length-append r.behind (x ∷ []), r.close);
      close = omega (arith, length-append r.behind (x ∷ []), r.close);
    }
    go (y ∷ a) = elim (Bool-cases (ltb 100 (length (y ∷ (a ++ hash ∷ (r.behind ++ x ∷ [])))))) [
      | inl full ↦ record {
        before = a;
        behind = r.behind ++ x ∷ [];
        parts = rw full;
        close = omega (arith, length-append r.behind (x ∷ []), r.close);
      }
      | inr room ↦ record {
        before = y ∷ a;
        behind = r.behind ++ x ∷ [];
        parts = rw room;
        close = omega (arith, length-append r.behind (x ∷ []), r.close);
      }
    ]

IsRecent-last : (hash : Text) (sent : List Text) → IsRecent hash 0 (slide (sent ++ hash ∷ []))
IsRecent-last hash [] = record { before = []; behind = []; parts = refl; close = omega arith }
IsRecent-last hash (y ∷ sent) = elim (Bool-cases (ltb 100 (length (y ∷ (sent ++ hash ∷ []))))) [
  | inl full ↦ record { before = sent; behind = []; parts = rw full; close = omega arith }
  | inr room ↦ record { before = y ∷ sent; behind = []; parts = rw room; close = omega arith }
]

IsRecent-contains :
    (hash : Text) (n : ℕ) (sent : List Text) → IsRecent hash n sent → contains sent hash ≡ true
IsRecent-contains hash n sent r =
    ap (λ l. contains l hash) r.parts
    ∙ contains-append r.before (hash ∷ r.behind) hash
    ∙ ground arith

-- The list after `publish`.
publish-sent :
    (reaches : ℕ → Bool) (topic : Option Text) (msg_id : Text) (p : Publisher)
    → IsWindow p
    → (publish reaches topic msg_id p).publisher.recently_sent_external_list ≡ (
        if not (recently_sent_has (topic_msg_hash topic msg_id) p) && gets_through reaches
        then slide (p.recently_sent_external_list ++ topic_msg_hash topic msg_id ∷ [])
        else p.recently_sent_external_list)
unfolding publish
publish-sent reaches topic msg_id p w =
    elim (Bool-cases (recently_sent_has (topic_msg_hash topic msg_id) p)) [
      | inl known ↦ rw known refl
      | inr fresh ↦
          let hash = topic_msg_hash topic msg_id in
          let u = update_lem hash p w fresh in
          rw (fresh, publish_loop_lem reaches hash p u.returned)
            (elim (Bool-cases (gets_through reaches)) [
              | inl through ↦ rw through u.slid
              | inr lost ↦ rw lost refl
            ])
    ]

-- A call of `publish`.
pub record Call : Type 0 where
  pub reaches : ℕ → Bool
  pub topic : Option Text
  pub msg_id : Text

-- The publisher after calls that came one after the other.
abbrev pub publish_all : List Call → Publisher → Publisher
publish_all [] p = p
publish_all (c ∷ calls) p = publish_all calls (publish c.reaches c.topic c.msg_id p).publisher

IsRecent-publish :
    (hash : Text) (n : ℕ) (c : Call) (p : Publisher)
    → suc n ≤ 99
    → IsWindow p
    → IsRecent hash n p.recently_sent_external_list
    → IsRecent hash
        (suc n)
        (publish c.reaches c.topic c.msg_id p).publisher.recently_sent_external_list
IsRecent-publish hash n c p h w r =
    rw (publish-sent c.reaches c.topic c.msg_id p w)
      (elim (Bool-cases
        (not (recently_sent_has (topic_msg_hash c.topic c.msg_id) p) && gets_through c.reaches)) [
          | inl sent ↦ rw sent (
              IsRecent-slide hash (topic_msg_hash c.topic c.msg_id) n p.recently_sent_external_list
                h r)
          | inr kept ↦ rw kept (record {
            before = r.before;
            behind = r.behind;
            parts = r.parts;
            close = omega (arith, r.close);
          })
        ])

IsRecent-publish_all :
    (hash : Text) (calls : List Call) (n : ℕ) (p : Publisher)
    → length calls + n ≤ 99
    → IsWindow p
    → IsRecent hash n p.recently_sent_external_list
    → recently_sent_has hash (publish_all calls p) ≡ true
unfolding recently_sent_has
IsRecent-publish_all hash [] n p h w r =
    w.same hash ∙ IsRecent-contains hash n p.recently_sent_external_list r
IsRecent-publish_all hash (c ∷ calls) n p h w r =
    IsRecent-publish_all hash calls (suc n) (publish c.reaches c.topic c.msg_id p).publisher
      (omega (arith, h)) (publish_lem c.reaches c.topic c.msg_id p w).2
      (IsRecent-publish hash n c p (omega (arith, h)) w r)

IsRecent-sent :
    (reaches : ℕ → Bool) (topic : Option Text) (msg_id : Text) (p : Publisher)
    → IsWindow p
    → (publish reaches topic msg_id p).delivered ≡ 1
    → IsRecent
        (topic_msg_hash topic msg_id)
        0
        (publish reaches topic msg_id p).publisher.recently_sent_external_list
IsRecent-sent reaches topic msg_id p w sent =
    let hash = topic_msg_hash topic msg_id in
    let through : (not (recently_sent_has hash p) && gets_through reaches) ≡ true =
      ground (arith, (publish_lem reaches topic msg_id p w).0, sent) in
    rw (publish-sent reaches topic msg_id p w, through)
      (IsRecent-last hash p.recently_sent_external_list)

-- Once a message was delivered from a window, the same id on the same topic is not delivered again
-- as long as at most 99 other calls came in between, whether those reached the queue or not.
pub publish-once :
    (reaches again : ℕ → Bool) (topic : Option Text) (msg_id : Text) (calls : List Call)
    → (p : Publisher) → IsWindow p
    → length calls ≤ 99
    → (publish reaches topic msg_id p).delivered ≡ 1
    → (publish again topic msg_id
        (publish_all calls (publish reaches topic msg_id p).publisher)).delivered
      ≡ 0
unfolding publish
publish-once reaches again topic msg_id calls p w short sent =
    let hash = topic_msg_hash topic msg_id in
    let p' = (publish reaches topic msg_id p).publisher in
    let known : recently_sent_has hash (publish_all calls p') ≡ true =
      IsRecent-publish_all hash calls 0 p' (omega (arith, short))
        (publish_lem reaches topic msg_id p w).2 (IsRecent-sent reaches topic msg_id p w sent) in
    rw known refl
