-- ===== src/Presence/Agreement.antt =====
-- How the standing of a user and the row of UserStatus go together, and that every change of status
-- keeps it.
use dino.Prelude.{
  ℕ, Bool-cases, Bool, true, false, not, ◌&&◌, Option, none, some, if◌then◌else◌, ◌≡◌, refl, arith,
  inl, inr,
}
use dino.Prelude.Text.{Text, ◌==◌, text_dec}
use dino.Redis.{TextKey}
use dino.Redis.Commands.{with_text}
use dino.Cache.Redis.Status.{status_available, status_unavailable}
use dino.Presence.Users.{done}
use dino.Redis.Commands.{View}
use dino.Presence.Standing.{Standing, standing, Change, after}
use dino.Presence.Effects.{changed}
use dino.Presence.Users.{Commits}

abbrev pub or_unavailable : Option Text → Text
or_unavailable row = elim row [ none ↦ status_unavailable | some status ↦ status ]

abbrev pub is_some : Option Text → Bool
is_some row = elim row [ none ↦ false | some _ ↦ true ]

-- The bit is set exactly for the members of the set of the online; a user with the status of the
-- available is in it; one with that of the unavailable is in neither set; and one without a status
-- is in neither set and has no row.
abbrev pub fits : Option Text → Bool → Bool → Bool → Bool
fits none online multicast row = not online && not multicast && not row
fits (some status) online multicast row =
    if status == status_available
    then online
    else if status == status_unavailable
    then not online && not multicast
    else true

abbrev pub agrees : Standing → Bool → Bool
agrees st row =
    (if st.bit then st.online else not st.online) && fits st.status st.online st.multicast row

-- A change that writes the status
abbrev pub writes_status : Change → Bool
writes_status Change.out_of_multicast = false
writes_status _ = true

agrees-after :
    (c : Change) (st : Standing) (row row' : Bool)
    → agrees st row ≡ true
    → writes_status c ≡ true
    → agrees (after c st) row' ≡ true
unfolding text_dec
agrees-after Change.to_online st row row' h e = refl
agrees-after Change.to_offline st row row' h e = refl
agrees-after Change.to_hidden st row row' h e = refl
agrees-after Change.to_hidden_offline st row row' h e = ground (arith, h)
agrees-after Change.to_away st row row' h e = ground (arith, h)
agrees-after Change.out_of_multicast st row row' h e = ground (arith, e)

agrees-out_of_multicast :
    (st : Standing) (row : Bool)
    → agrees st row ≡ true
    → agrees (after Change.out_of_multicast st) row ≡ true
agrees-out_of_multicast st row h = ground (arith, h)

agrees-filled :
    (st : Standing) (row : Option Text)
    → agrees st (is_some row) ≡ true
    → st.status ≡ none
    → agrees (record st { status = some (or_unavailable row) }) (is_some row) ≡ true
unfolding text_dec
agrees-filled st none h e = ground (arith, h, e)
agrees-filled st (some s) h e = ground (arith, h, e)

abbrev pub no_commits : Commits
no_commits = record { of_last_online = done; first = done; second = done }

module _ (u v : Text) (st st' : Standing) (row row' : Bool) (h : agrees st row ≡ true) where
  pub agrees-changed :
      (c : Change)
      → writes_status c ≡ true
      → st' ≡ changed c v u st
      → ((u == v) ≡ false → row' ≡ row)
      → agrees st' row' ≡ true
  agrees-changed c written e kept = elim (Bool-cases (u == v)) [
    | inl same ↦ rw (e, same) (agrees-after c st row row' h written)
    | inr differ ↦ rw (e, differ, kept differ) h
  ]

  pub agrees-left :
      row' ≡ row → st' ≡ changed Change.out_of_multicast v u st → agrees st' row' ≡ true
  agrees-left kept e = elim (Bool-cases (u == v)) [
    | inl same ↦ rw (e, same, kept) (agrees-out_of_multicast st row h)
    | inr differ ↦ rw (e, differ, kept) h
  ]

pub written :
    (b : Bool) → writes_status (if b then Change.to_hidden_offline else Change.to_hidden) ≡ true
written b = ground arith

pub agrees-asked :
    (n : ℕ) (u v : Text) (w : View) (row_of : Text → Option Text)
    → w.texts (TextKey.user_status v) ≡ none
    → agrees (standing n u w) (is_some (row_of u)) ≡ true
    → agrees
        (standing n u (with_text (TextKey.user_status v) (or_unavailable (row_of v)) w))
        (is_some (row_of u))
      ≡ true
agrees-asked n u v w row_of nothing h = elim (Bool-cases (u == v)) [
  | inl same ↦ grind (arith, agrees-filled)
  | inr differ ↦ rw (differ) h
]
