-- ===== src/Publisher/Window.antt =====
-- The window of what was sent recently, of dino/endpoint/base.py.
use dino.Prelude.{
  ◌≤◌, false, not, ◌&&◌, ◌||◌, List, [], ◌∷◌, ◌++◌, ltb, if◌then◌else◌, length, ◌≡◌, true, refl,
  arith, Bool-cases, inl, inr, length-append,
}
use dino.Prelude.Text.{Text, ◌==◌, contains, contains-append}
use dino.Publisher.{update_recently_sent, Publisher, add, remove}

pub contains-remove :
    (x : Text) (l : List Text) (y : Text) → contains (remove x l) y ≡ (not (y == x) && contains l y)
unfolding remove
contains-remove x [] y = ground arith
contains-remove x (z ∷ l) y = ground (arith, contains-remove x l y)

contains-add :
    (x : Text) (l : List Text) (y : Text) → contains (add x l) y ≡ (y == x || contains l y)
contains-add x l y = ground (arith, contains-append l (x ∷ []) y)

-- No element is there twice.
abbrev pub IsDistinct : List Text → Type 0
IsDistinct [] = Unit
IsDistinct (x ∷ l) = (contains l x ≡ false) × IsDistinct l

IsDistinct-snoc :
    (l : List Text) (x : Text) → IsDistinct l → contains l x ≡ false → IsDistinct (l ++ x ∷ [])
IsDistinct-snoc [] x d h = (refl, tt)
IsDistinct-snoc (y ∷ l) x (fresh, d) h =
    (ground (arith, contains-append l (x ∷ []) y), IsDistinct-snoc l x d (ground arith))

-- The set and the list hold the same ids, each once, and at most a hundred.
pub record IsWindow (p : Publisher) : Type 0 where
  pub same :
      (x : Text)
      → contains p.recently_sent_external_hash x ≡ contains p.recently_sent_external_list x
  pub distinct : IsDistinct p.recently_sent_external_list
  pub small : length p.recently_sent_external_list ≤ 100

-- The list after an id was sent.
abbrev pub slide : List Text → List Text
slide [] = []
slide (x ∷ l) = if ltb 100 (length (x ∷ l)) then l else x ∷ l

abbrev pub publisher : List Text → List Text → Publisher
publisher hashes sent = record {
  recently_sent_external_hash = hashes;
  recently_sent_external_list = sent;
}

-- What `update_recently_sent` does in a window to an id that is not in it.
pub record Updates (hash : Text) (p : Publisher) : Type 0 where
  pub returned : (update_recently_sent hash p).1 ≡ true
  pub window : IsWindow (update_recently_sent hash p).0
  pub slid :
      (update_recently_sent hash p).0.recently_sent_external_list
      ≡ slide (p.recently_sent_external_list ++ hash ∷ [])

module _ (hash : Text) (hashes : List Text) where
  module _ (fresh : contains hashes hash ≡ false) where
    same-grown :
        (sent : List Text)
        → ((x : Text) → contains hashes x ≡ contains sent x)
        → (x : Text) → contains (add hash hashes) x ≡ contains (sent ++ hash ∷ []) x
    same-grown sent same x =
        ground (arith, contains-add hash hashes x, contains-append sent (hash ∷ []) x, same x)

    same-popped :
        (old : Text) (sent : List Text)
        → contains (sent ++ hash ∷ []) old ≡ false
        → ((x : Text) → contains hashes x ≡ contains (old ∷ sent) x)
        → (x : Text) → contains (remove old (add hash hashes)) x ≡ contains (sent ++ hash ∷ []) x
    same-popped old sent gone same x = ground (
      arith,
      contains-remove old (add hash hashes) x,
      contains-add hash hashes x,
      contains-append sent (hash ∷ []) x,
      same x,
    )

    grown :
        (old : Text) (sent : List Text)
        → IsWindow (publisher hashes (old ∷ sent))
        → IsDistinct (old ∷ (sent ++ hash ∷ []))
    grown old sent w = IsDistinct-snoc (old ∷ sent) hash w.distinct (ground (arith, w.same hash))

    pub update-Updates :
        (sent : List Text) → IsWindow (publisher hashes sent) → Updates hash (publisher hashes sent)
    unfolding update_recently_sent
    update-Updates [] w = record {
      returned = refl;
      window = record { same = same-grown [] w.same; distinct = (refl, tt); small = omega arith };
      slid = refl;
    }
    update-Updates (old ∷ sent) w =
        elim (Bool-cases (ltb 100 (length (old ∷ (sent ++ hash ∷ []))))) [
          | inl full ↦ record {
            returned = rw full (ground (arith, contains-add hash hashes old, w.same old));
            window = rw full (record {
              same = same-popped old sent (grown old sent w).0 w.same;
              distinct = (grown old sent w).1;
              small = omega (arith, length-append sent (hash ∷ []), w.small);
            });
            slid = rw full;
          }
          | inr room ↦ record {
            returned = rw room;
            window = rw room (record {
              same = same-grown (old ∷ sent) w.same;
              distinct = grown old sent w;
              small = ground arith;
            });
            slid = rw room;
          }
        ]
