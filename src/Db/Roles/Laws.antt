-- ===== src/Db/Roles/Laws.antt =====
-- The calls on roles of dino/db/redis.py keep a set of grants.
use dino.Prelude.{
  not, ◌&&◌, ◌||◌, Option, none, some, List, [], ◌∷◌, ◌++◌, ◌≡◌, ◌≢◌, refl, ap, arith, Bool-cases,
  inl, inr, All, All-append,
}
use dino.Prelude.Text.{Text, ◌==◌, contains, contains-append, split, join}
use dino.Prelude.Split.{Lacks, split-Lacks_sep, split_of_Lacks, split-join}
use dino.Db.Roles.{has_role, with_role, without_role, set_of, discard}

pub contains-set_of : (l : List Text) (x : Text) → contains (set_of l) x ≡ contains l x
contains-set_of [] x = refl
contains-set_of (y ∷ l) x = ground (arith, contains-set_of l x)

contains-discard :
    (x : Text) (l : List Text) (y : Text)
    → contains (discard x l) y ≡ (not (y == x) && contains l y)
contains-discard x [] y = ground arith
contains-discard x (z ∷ l) y = ground (arith, contains-discard x l y)

module _ (P : Text → Type 0) where
  All-set_of : (l : List Text) → All P l → All P (set_of l)
  All-set_of [] h = tt
  All-set_of (x ∷ l) (p, h) = elim (Bool-cases (contains l x)) [
    | inl known ↦ rw known (All-set_of l h)
    | inr fresh ↦ rw fresh (p, All-set_of l h)
  ]

  All-discard : (x : Text) (l : List Text) → All P l → All P (discard x l)
  All-discard x [] h = tt
  All-discard x (y ∷ l) (p, h) = elim (Bool-cases (x == y)) [
    | inl same ↦ rw same (All-discard x l h)
    | inr other ↦ rw other (p, All-discard x l h)
  ]

-- What is stored for a set of roles has exactly these, apart from the blank role that is read from
-- an empty text.
has_role-join :
    (role : Text) (l : List Text)
    → role ≢ []
    → All (Lacks b',') l
    → has_role role (some (join b',' l)) ≡ contains l role
unfolding has_role join split
has_role-join role [] named h = ground (arith, named)
has_role-join role (x ∷ l) named h = ap (λ p. contains p role) (split-join b',' x l h)

pub has_role-with_role :
    (role added : Text) (roles : Option Text)
    → role ≢ []
    → Lacks b',' added
    → has_role role (some (with_role added roles)) ≡ (role == added || has_role role roles)
unfolding has_role with_role
has_role-with_role role added none named h = ap (λ p. contains p role) (split_of_Lacks b',' added h)
has_role-with_role role added (some roles) named h =
    elim (Bool-cases (contains (set_of (split b',' roles)) added)) [
      | inl known ↦ rw known (
          ground (
            arith,
            has_role-join role (set_of (split b',' roles)) named old,
            contains-set_of (split b',' roles) role,
            known,
          ))
      | inr fresh ↦ rw fresh (
          ground (
            arith,
            has_role-join role (set_of (split b',' roles) ++ added ∷ []) named
                (All-append (Lacks b',') (set_of (split b',' roles)) (added ∷ []) old (h, tt)),
            contains-append (set_of (split b',' roles)) (added ∷ []) role,
            contains-set_of (split b',' roles) role,
          ))
    ]
  where
    old : All (Lacks b',') (set_of (split b',' roles))
    old = All-set_of (Lacks b',') (split b',' roles) (split-Lacks_sep b',' roles)

-- What is stored after a removal.
abbrev pub left_of : Option Text → Option Text → Option Text
left_of roles none = roles
left_of roles (some new) = some new

pub has_role-without_role :
    (role removed : Text) (roles : Option Text)
    → role ≢ []
    → has_role role (left_of roles (without_role removed roles))
      ≡ (not (role == removed) && has_role role roles)
unfolding has_role without_role
has_role-without_role role removed none named = ground arith
has_role-without_role role removed (some roles) named =
    elim (Bool-cases (contains (set_of (split b',' roles)) removed)) [
      | inl known ↦ rw known (
          ground (
            arith,
            has_role-join role (discard removed (set_of (split b',' roles))) named
                (All-discard (Lacks b',') removed (set_of (split b',' roles)) old),
            contains-discard removed (set_of (split b',' roles)) role,
            contains-set_of (split b',' roles) role,
          ))
      | inr fresh ↦ rw fresh (ground (arith, contains-set_of (split b',' roles) removed, fresh))
    ]
  where
    old : All (Lacks b',') (set_of (split b',' roles))
    old = All-set_of (Lacks b',') (split b',' roles) (split-Lacks_sep b',' roles)
