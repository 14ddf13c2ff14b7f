-- ===== src/Publisher.antt =====
-- BasePublisher of dino/endpoint/base.py: publishing to the message queue, at most three tries, and
-- the window of what was sent recently. Whether a try reaches the queue is an argument. A Python
-- set is the list of its elements.
pub mod Laws
pub mod Window
use dino.Prelude.{
  ℕ, zero, suc, ◌+◌, Bool, true, false, not, Option, none, some, List, [], ◌∷◌, ◌++◌, ltb,
  if◌then◌else◌, length,
}
use dino.Prelude.Text.{Text, ◌==◌, contains, str}

pub record Publisher : Type 0 where
  pub recently_sent_external_hash : List Text
  pub recently_sent_external_list : List Text

-- topic or 'default'
abbrev pub topic_or_default : Option Text → Text
topic_or_default none = str "default"
topic_or_default (some []) = str "default"
topic_or_default (some (c ∷ t)) = c ∷ t

-- f"{topic or 'default'}|{msg_id}"
unfoldable pub topic_msg_hash : Option Text → Text → Text
topic_msg_hash topic msg_id = topic_or_default topic ++ b'|' ∷ msg_id

-- set.add
abbrev pub add : Text → List Text → List Text
add x l = if contains l x then l else l ++ x ∷ []

-- set.remove, of an element that is there
unfoldable pub remove : Text → List Text → List Text
remove x [] = []
remove x (y ∷ l) = let rest = remove x l in if x == y then rest else y ∷ rest

-- recently_sent_has, of the hash of topic and id
unfoldable pub recently_sent_has : Text → Publisher → Bool
recently_sent_has hash p = contains p.recently_sent_external_hash hash

-- The end of `update_recently_sent`, for `pop(0)`: `remove` raises a KeyError if the element is not
-- there. What was popped stays popped.
abbrev pub pop_first : List Text → List Text → Publisher × Bool
pop_first hashes [] =
    (record { recently_sent_external_hash = hashes; recently_sent_external_list = [] }, true)
pop_first hashes (old ∷ rest) = (
  record { recently_sent_external_hash = remove old hashes; recently_sent_external_list = rest },
  contains hashes old,
)

-- update_recently_sent: the new state, and whether it returned without an exception.
unfoldable pub update_recently_sent : Text → Publisher → Publisher × Bool
unfolding remove
update_recently_sent hash p =
    let hashes = add hash p.recently_sent_external_hash in
    let sent = p.recently_sent_external_list ++ hash ∷ [] in
    if ltb 100 (length sent)
    then pop_first hashes sent
    else (record { recently_sent_external_hash = hashes; recently_sent_external_list = sent }, true)

pub record Outcome : Type 0 where
  pub publisher : Publisher
  -- how many times the message reached the queue
  pub delivered : ℕ
  -- PublishException was raised
  pub failed : Bool

-- The loop of `publish`, with the tries that are left. A try that reaches the queue and then fails
-- to update what was sent counts as failed, and the next try sends again.
unfoldable pub publish_loop : (ℕ → Bool) → Text → ℕ → ℕ → Publisher → ℕ → Outcome
unfolding update_recently_sent
publish_loop reaches hash current_try zero p n = record {
  publisher = p;
  delivered = n;
  failed = true;
}
publish_loop reaches hash current_try (suc left) p n = elim (reaches current_try) [
  | false ↦ publish_loop reaches hash (current_try + 1) left p n
  | true ↦
      let (p', returned) = update_recently_sent hash p in
      elim returned [
        | true ↦ record { publisher = p'; delivered = n + 1; failed = false }
        | false ↦ publish_loop reaches hash (current_try + 1) left p' (n + 1)
      ]
]

-- publish
unfoldable pub publish : (ℕ → Bool) → Option Text → Text → Publisher → Outcome
unfolding recently_sent_has
publish reaches topic msg_id p =
    if recently_sent_has (topic_msg_hash topic msg_id) p
    then record { publisher = p; delivered = 0; failed = false }
    else publish_loop reaches (topic_msg_hash topic msg_id) 0 3 p 0

abbrev pub init_publisher : Publisher
init_publisher = record { recently_sent_external_hash = []; recently_sent_external_list = [] }
