-- ===== src/Acl/Csv.antt =====
-- What the csv validators of dino/validation/acl.py decide: negation, and values that were checked
-- when the acl was set.
use dino.Prelude.{true, false, some, List, [], ◌∷◌, ◌≡◌, ◌↔◌, arith, Option-cases, inl, inr, all}
use dino.Prelude.Text.{Text, contains, is_blank, split}
use dino.Prelude.Dict.{Dict, lookup}
use dino.Prelude.Result.{ok}
use dino.Acl.{granted}
use dino.Acl.Validators.{call_str_in_csv, new_csv}

contains_of_all :
    (l m : List Text) (v : Text)
    → all (contains m) l ≡ true
    → contains l v ≡ true
    → contains m v ≡ true
contains_of_all [] m v h k = cc
contains_of_all (t ∷ l) m v h k = ground (arith, contains_of_all l m v)

-- If the session has a value for the acl and the acl names values, then the negated acl grants
-- exactly the sessions that the acl itself does not.
pub call_str_in_csv_negated :
    (session : Dict Text) (acl_type values v : Text)
    → is_blank values ≡ false
    → lookup acl_type session ≡ some v
    → (call_str_in_csv session acl_type values true ≡ ok granted)
      ↔ (¬ (call_str_in_csv session acl_type values false ≡ ok granted))
unfolding call_str_in_csv
call_str_in_csv_negated session acl_type values v full held = rw (full, held) (ground arith)

-- Values that were accepted against the configured ones let no other session in: a session that is
-- granted holds a configured value.
pub call_str_in_csv-configured :
    (session : Dict Text) (acl_type values : Text) (valid : List Text)
    → new_csv (some valid) values ≡ ok tt
    → is_blank values ≡ false
    → call_str_in_csv session acl_type values false ≡ ok granted
    → (v : Text) × (lookup acl_type session ≡ some v) × (contains valid v ≡ true)
unfolding new_csv call_str_in_csv
call_str_in_csv-configured session acl_type values valid accepted full h =
    elim (Option-cases (lookup acl_type session)) [
      | inl missing ↦ absurd (ground arith)
      | inr (v, held) ↦ (v, held, ground (arith, contains_of_all (split b',' values) valid v))
    ]
