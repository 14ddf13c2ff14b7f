-- ===== src/Acl/Pattern/Extract.antt =====
-- The `while` of AclPatternValidator in dino/validation/acl.py, which takes the parenthesised groups
-- out of a pattern, ends on every pattern whose parentheses `validate_new_acl` accepts.
pub mod Total
use dino.Prelude.{
  ℕ, suc, ◌+◌, ◌-◌, ◌≤◌, true, false, some, List, [], ◌∷◌, ◌++◌, ◌≡◌, ◌⊎◌, refl, ap, inl, inr,
  arith, eqb, length, length-append, take, drop, Bool-cases, all,
}
use mathlib.Core.List.{append_assoc}
use native.Mathlib.Numerals.{add-one}
use dino.Prelude.Text.{Text, is_digit_char}
use dino.Prelude.Split.{Lacks}
use dino.Prelude.Result.{ok}
use dino.Generic.Decimal.{show, all-show}
use dino.Acl.Pattern.{index?, placeholder, extract_round, count_char, not_nested}

abbrev pub IsFlat : Text → Type 0
IsFlat s = Lacks b'(' s × Lacks b')' s

Lacks-append : (c : ℕ) (s t : Text) → Lacks c s → Lacks c t → Lacks c (s ++ t)
Lacks-append c [] t h k = k
Lacks-append c (d ∷ s) t h k = ground (arith, Lacks-append c s t)

digits-IsFlat : (s : Text) → all is_digit_char s ≡ true → IsFlat s
digits-IsFlat [] h = (refl, refl)
digits-IsFlat (c ∷ s) h = ground (arith, digits-IsFlat s)

pub placeholder-IsFlat : (n : ℕ) → IsFlat (placeholder n)
placeholder-IsFlat n =
    let (no_open, no_close) = digits-IsFlat (show n) (all-show n) in
    (
      Lacks-append b'(' (show n) (b'@' ∷ []) no_open refl,
      Lacks-append b')' (show n) (b'@' ∷ []) no_close refl,
    )

pub count_char-append :
    (c : ℕ) (s t : Text) → count_char c (s ++ t) ≡ count_char c s + count_char c t
count_char-append c [] t = omega arith
count_char-append c (d ∷ s) t = ground (arith, count_char-append c s t)

pub count_char-Lacks : (c : ℕ) (s : Text) → Lacks c s → count_char c s ≡ 0
count_char-Lacks c [] h = refl
count_char-Lacks c (d ∷ s) h = ground (arith, count_char-Lacks c s)

pub count_char-le-length : (c : ℕ) (s : Text) → count_char c s ≤ length s
count_char-le-length c [] = omega arith
count_char-le-length c (d ∷ s) = ground (arith, count_char-le-length c s)

-- Only the difference of the two counts matters.
not_nested-suc : (o c : ℕ) (s : Text) → not_nested (suc o) (suc c) s ≡ not_nested o c s
unfolding not_nested
not_nested-suc o c [] = refl
not_nested-suc o c (d ∷ s) =
    ground (arith, not_nested-suc o c s, not_nested-suc (o + 1) c s, not_nested-suc o (c + 1) s)

pub not_nested-flat :
    (o c : ℕ) (s t : Text)
    → IsFlat s
    → c ≤ o
    → o ≤ c + 1
    → not_nested o c (s ++ t) ≡ not_nested o c t
unfolding not_nested
not_nested-flat o c [] t h p q = refl
not_nested-flat o c (d ∷ s) t h p q = ground (arith, not_nested-flat o c s t)

-- A text in which a parenthesis opens first, and the text behind it.
pub record Opened (s : Text) : Type 0 where
  pub before : Text
  pub after : Text
  pub parts : s ≡ before ++ b'(' ∷ after
  pub flat : IsFlat before
  pub nested : not_nested 1 0 after ≡ true

pub record Closed (s : Text) : Type 0 where
  pub inside : Text
  pub after : Text
  pub parts : s ≡ inside ++ b')' ∷ after
  pub flat : IsFlat inside
  pub nested : not_nested 0 0 after ≡ true

pub find_open : (s : Text) → not_nested 0 0 s ≡ true → IsFlat s ⊎ Opened s
unfolding not_nested
find_open [] h = inl (refl, refl)
find_open (c ∷ s) h = elim (Bool-cases (eqb c b'(')) [
  | inl opens ↦ inr (record {
    before = [];
    after = s;
    parts = ground arith;
    flat = (refl, refl);
    nested = ground arith;
  })
  | inr no_open ↦ elim (Bool-cases (eqb c b')')) [
    | inl closes ↦ absurd (ground arith)
    | inr no_close ↦ go (find_open s (ground arith)) no_open no_close
  ]
]
  where
    go :
        IsFlat s ⊎ Opened s
        → eqb c b'(' ≡ false
        → eqb c b')' ≡ false
        → IsFlat (c ∷ s) ⊎ Opened (c ∷ s)
    go (inl flat) p q = inl (ground arith)
    go (inr o) p q = inr (record {
      before = c ∷ o.before;
      after = o.after;
      parts = ap (λ t. c ∷ t) o.parts;
      flat = (let f = o.flat in ground arith);
      nested = o.nested;
    })

pub find_close : (s : Text) → not_nested 1 0 s ≡ true → IsFlat s ⊎ Closed s
unfolding not_nested
find_close [] h = inl (refl, refl)
find_close (c ∷ s) h = elim (Bool-cases (eqb c b'(')) [
  | inl opens ↦ absurd (ground arith)
  | inr no_open ↦ elim (Bool-cases (eqb c b')')) [
    | inl closes ↦ inr (record {
      inside = [];
      after = s;
      parts = ground arith;
      flat = (refl, refl);
      nested = ground (arith, not_nested-suc 0 0 s);
    })
    | inr no_close ↦ go (find_close s (ground arith)) no_open no_close
  ]
]
  where
    go :
        IsFlat s ⊎ Closed s
        → eqb c b'(' ≡ false
        → eqb c b')' ≡ false
        → IsFlat (c ∷ s) ⊎ Closed (c ∷ s)
    go (inl flat) p q = inl (ground arith)
    go (inr o) p q = inr (record {
      inside = c ∷ o.inside;
      after = o.after;
      parts = ap (λ t. c ∷ t) o.parts;
      flat = (let f = o.flat in ground arith);
      nested = o.nested;
    })

index?-append : (c : ℕ) (p r : Text) → Lacks c p → index? c (p ++ c ∷ r) ≡ some (length p)
unfolding index?
index?-append c [] r h = ground arith
index?-append c (d ∷ p) r h = ground (arith, index?-append c p r)

take-length : (p r : Text) → take (length p) (p ++ r) ≡ p
take-length [] r = refl
take-length (c ∷ p) r = ap (λ t. c ∷ t) (take-length p r)

drop-length : (c : ℕ) (p r : Text) → drop (suc (length p)) (p ++ c ∷ r) ≡ r
drop-length c [] r = refl
drop-length c (d ∷ p) r = drop-length c p r

module _ (groups : List Text) (p m q : Text) (flat_p : IsFlat p) (flat_m : IsFlat m) where
  regroup : p ++ b'(' ∷ (m ++ b')' ∷ q) ≡ (p ++ b'(' ∷ m) ++ b')' ∷ q
  regroup = simp append_assoc

  length-prefix : length (p ++ b'(' ∷ m) ≡ length p + suc (length m)
  length-prefix = length-append p (b'(' ∷ m)

  index-close : index? b')' (p ++ b'(' ∷ (m ++ b')' ∷ q)) ≡ some (length (p ++ b'(' ∷ m))
  index-close =
      rw regroup
        (index?-append b')' (p ++ b'(' ∷ m) q (Lacks-append b')' p (b'(' ∷ m) flat_p.1 flat_m.1))

  drop-close : drop (length (p ++ b'(' ∷ m) + 1) (p ++ b'(' ∷ (m ++ b')' ∷ q)) ≡ q
  drop-close = rw (regroup, add-one) (drop-length b')' (p ++ b'(' ∷ m) q)

  inside-eq :
      take
        (length (p ++ b'(' ∷ m) - (length p + 1))
        (drop (length p + 1) (p ++ b'(' ∷ (m ++ b')' ∷ q)))
      ≡ m
  inside-eq =
      let n : length (p ++ b'(' ∷ m) - (length p + 1) ≡ length m = omega (arith, length-prefix) in
      rw (n, add-one, drop-length b'(' p (m ++ b')' ∷ q)) (take-length m (b')' ∷ q))

  -- A round moves the first group out, and leaves its number between at-signs.
  pub extract_round-parts :
      extract_round groups (p ++ b'(' ∷ (m ++ b')' ∷ q))
      ≡ ok (groups ++ m ∷ [], p ++ (placeholder (length groups) ++ q))
  unfolding extract_round
  extract_round-parts = rw (
    index?-append b'(' p (m ++ b')' ∷ q) flat_p.0,
    index-close,
    inside-eq,
    take-length p (b'(' ∷ (m ++ b')' ∷ q)),
    drop-close,
  )
