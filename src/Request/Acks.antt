-- ===== src/Request/Acks.antt =====
-- RequestValidator of dino/validation/request.py: messages that were read or received.
use dino.Prelude.{
  Bool, true, not, ◌&&◌, Option, none, some, List, [], ◌∷◌, length, ltb, eqb, all, if◌then◌else◌,
  ◌≡◌, ◌↔◌, arith, refl, ◌≤◌,
}
use dino.Prelude.Text.{Text, ◌==◌, str, is_blank, contains, strip}
use dino.Request.{ErrorCode, Answer, valid, invalid}

-- message_ids.add
abbrev pub add : Text → List Text → List Text
add x l = if contains l x then l else x ∷ l

-- The loop over the attachments: the set of the ids, or `none` at one that is no uuid.
unfoldable pub collect_ids : (Text → Bool) → List Text → List Text → Option (List Text)
collect_ids is_uuid [] ids = some ids
collect_ids is_uuid (x ∷ xs) ids =
    let rest = collect_ids is_uuid xs (add (strip x) ids) in if is_uuid x then rest else none

abbrev pub count_ids : Option (List Text) → Answer
count_ids none = invalid ErrorCode.validation_error
count_ids (some ids) =
    if eqb (length ids) 0
    then invalid ErrorCode.missing_object_attachments
    else if ltb 500 (length ids)
    then invalid ErrorCode.too_many_attachments
    else valid

-- _on_read_or_receive, of the verb, the target's id and the ids of the attachments
unfoldable pub on_read_or_receive :
    (Text → Bool) → Text → Option Text → Option Text → Option (List Text) → Answer
on_read_or_receive is_uuid expected none target_id attachments = invalid ErrorCode.missing_verb
on_read_or_receive is_uuid expected (some verb) none attachments =
    invalid ErrorCode.missing_target_id
on_read_or_receive is_uuid expected (some verb) (some target_id) attachments =
    if is_blank target_id
    then invalid ErrorCode.missing_target_id
    else if not (verb == expected)
    then invalid ErrorCode.invalid_verb
    else elim attachments [
      | none ↦ invalid ErrorCode.missing_object_attachments
      | some ids ↦ count_ids (collect_ids is_uuid ids [])
    ]

-- on_read
unfoldable pub on_read : (Text → Bool) → Option Text → Option Text → Option (List Text) → Answer
on_read is_uuid = on_read_or_receive is_uuid (str "read")

-- on_received
unfoldable pub on_received : (Text → Bool) → Option Text → Option Text → Option (List Text) → Answer
on_received is_uuid = on_read_or_receive is_uuid (str "receive")

-- The different ids among these, without spaces around them, the latest first
abbrev pub distinct : List Text → List Text → List Text
distinct [] ids = ids
distinct (x ∷ xs) ids = distinct xs (add (strip x) ids)

collect_ids-distinct :
    (is_uuid : Text → Bool) (xs ids : List Text)
    → collect_ids is_uuid xs ids ≡ (if all is_uuid xs then some (distinct xs ids) else none)
unfolding collect_ids
collect_ids-distinct is_uuid [] ids = refl
collect_ids-distinct is_uuid (x ∷ xs) ids =
    ground (arith, collect_ids-distinct is_uuid xs (add (strip x) ids))

-- No id stands in the list twice.
abbrev pub differ : List Text → Bool
differ [] = true
differ (x ∷ l) = not (contains l x) && differ l

distinct-differ : (xs ids : List Text) → differ ids ≡ true → differ (distinct xs ids) ≡ true
distinct-differ [] ids h = h
distinct-differ (x ∷ xs) ids h = distinct-differ xs (add (strip x) ids) (ground (arith, h))

-- Marking messages as read or as received is accepted exactly with the verb for it, a target that is
-- not blank, and attachments whose ids are all uuids, of which there are, each counted once, at
-- least 1 and at most 500.
pub on_read_iff :
    (is_uuid : Text → Bool) (verb target_id : Text) (ids : List Text)
    → ((on_read is_uuid (some verb) (some target_id) (some ids) ≡ valid)
        ↔ ((not (is_blank target_id) && verb == str "read" && all is_uuid ids) ≡ true)
          × (differ (distinct ids []) ≡ true)
          × (1 ≤ length (distinct ids []))
          × (length (distinct ids []) ≤ 500))
      × ((on_received is_uuid (some verb) (some target_id) (some ids) ≡ valid)
          ↔ ((not (is_blank target_id) && verb == str "receive" && all is_uuid ids) ≡ true)
            × (differ (distinct ids []) ≡ true)
            × (1 ≤ length (distinct ids []))
            × (length (distinct ids []) ≤ 500))
unfolding on_read on_received on_read_or_receive
on_read_iff is_uuid verb target_id ids =
    let counted = collect_ids-distinct is_uuid ids [] in
    let once = distinct-differ ids [] refl in
    (ground (arith, counted, once), ground (arith, counted, once))
