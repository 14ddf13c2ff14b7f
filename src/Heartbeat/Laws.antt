-- ===== src/Heartbeat/Laws.antt =====
-- What a round of the loop in dino/heartbeat/manager.py does to each user.
use dino.Prelude.{
  ℕ, ◌-◌, Bool, true, false, Option, not, ◌&&◌, ◌||◌, none, some, List, [], ◌∷◌, ◌++◌,
  if◌then◌else◌, ◌≡◌, inl, inr, refl, sym, ap, ◌∙◌, arith, Bool-cases, Option-cases,
}
use mathlib.Core.List.{append-nil, append_assoc}
use dino.Prelude.Text.{Text, ◌==◌, text_dec, contains}
use dino.Prelude.Dict.{Dict, lookup, keys, has, lookup-insert, lookup-nil, contains-keys}
use dino.Heartbeat.{
  Manager, Config, has_heartbeat, add_heartbeat, is_expired, expired_of, insert_if, pending_of,
  forget_sid, disconnect, check_heartbeats, round,
}

contains-append :
    (l m : List Text) (u : Text) → contains (l ++ m) u ≡ (contains l u || contains m u)
contains-append [] m u = refl
contains-append (t ∷ l) m u = ground (arith, contains-append l m u)

contains-expired_of :
    (limit : ℕ) (d : Dict ℕ) (us : List Text) (u : Text)
    → contains (expired_of limit d us) u ≡ (contains us u && is_expired limit (lookup u d))
unfolding expired_of
contains-expired_of limit d [] u = refl
contains-expired_of limit d (v ∷ us) u = ground (arith, contains-expired_of limit d us u)

lookup-pending_of :
    (limit : ℕ) (d : Dict ℕ) (us : List Text) (out : Dict ℕ) (u : Text)
    → lookup u (pending_of limit d us out) ≡ (
        if contains us u && has u d && not (is_expired limit (lookup u d))
        then lookup u d
        else lookup u out)
unfolding pending_of
lookup-pending_of limit d [] out u = refl
lookup-pending_of limit d (v ∷ us) out u = elim (Option-cases (lookup v d)) [
  | inl missing ↦ ground (
    arith,
    missing,
    lookup-pending_of limit d us
        (if is_expired limit (lookup v d) then out else insert_if v (lookup v d) out) u,
  )
  | inr (t, found) ↦ ground (
    arith,
    found,
    lookup-pending_of limit d us
        (if is_expired limit (lookup v d) then out else insert_if v (lookup v d) out) u,
    lookup-insert u v t out,
  )
]

abbrev pub gone_of : (Text → Bool) → List Text → List Text
gone_of online [] = []
gone_of online (u ∷ us) = let rest = gone_of online us in if online u then rest else u ∷ rest

contains-gone_of :
    (online : Text → Bool) (us : List Text) (u : Text)
    → contains (gone_of online us) u ≡ (contains us u && not (online u))
contains-gone_of online [] u = refl
contains-gone_of online (v ∷ us) u = elim (text_dec u v) [
  | yes same ↦ ground (arith, same, contains-gone_of online us u)
  | no other ↦ ground (arith, other, contains-gone_of online us u)
]

-- A check that raises nothing, and answers `online`
abbrev pub calmly : (Text → Bool) → Text → Option Bool
calmly online u = some (online u)

abbrev pub always : Text → Bool
always u = true

module _ (c : Config) (now : ℕ) (online : Text → Bool) where
  lookup-check_heartbeats :
      (us : List Text) (m : Manager) (u : Text)
      → lookup u (check_heartbeats c now (calmly online) always us m).1.to_check
        ≡ (if contains us u && online u then some now else lookup u m.to_check)
  unfolding check_heartbeats
  lookup-check_heartbeats [] m u = refl
  lookup-check_heartbeats (v ∷ us) m u = elim (Bool-cases (online v)) [
    | inl is_on ↦ ground (
      arith,
      is_on,
      lookup-check_heartbeats us (add_heartbeat now v m) u,
      lookup-insert u v now m.to_check,
    )
    | inr is_off ↦
        ground (arith, is_off, lookup-check_heartbeats us (disconnect v (forget_sid c v m)) u)
  ]

  disconnected-check_heartbeats :
      (us : List Text) (m : Manager)
      → (check_heartbeats c now (calmly online) always us m).1.disconnected
        ≡ m.disconnected ++ gone_of online us
  unfolding check_heartbeats disconnect forget_sid
  disconnected-check_heartbeats [] m = sym (append-nil m.disconnected)
  disconnected-check_heartbeats (v ∷ us) m = elim (Bool-cases (online v)) [
    | inl is_on ↦ ground (arith, is_on, disconnected-check_heartbeats us (add_heartbeat now v m))
    | inr is_off ↦ rw is_off (
        disconnected-check_heartbeats us (disconnect v (forget_sid c v m))
        ∙ append_assoc m.disconnected (v ∷ []) (gone_of online us))
  ]

-- Where nothing raises, a round checks each tracked user whose heartbeat is older than the timeout:
-- one for whom the cache still has a heartbeat is tracked from now on, and one for whom it has none
-- is not tracked any more. Those are the users whom the round disconnects, all of them and nobody
-- else. Every other user is tracked, or not, as before.
pub round-settles :
    (c : Config) (now : ℕ) (online : Text → Bool) (m : Manager)
    → (gone : List Text) × ((round c now (calmly online) always m).disconnected
        ≡ m.disconnected ++ gone)
      × ((u : Text)
          → contains gone u
            ≡ (is_expired (now - c.expire_second) (lookup u m.to_check) && not (online u)))
      × ((u : Text)
          → lookup u (round c now (calmly online) always m).to_check ≡ (
              if is_expired (now - c.expire_second) (lookup u m.to_check)
              then (if online u then some now else none)
              else lookup u m.to_check))
unfolding round
round-settles c now online m =
    let limit = now - c.expire_second in
    let expired = expired_of limit m.to_check (keys m.to_check) in
    let pending = record m { to_check = pending_of limit m.to_check (keys m.to_check) [] } in
    (
      gone_of online expired,
      disconnected-check_heartbeats c now online expired pending,
      λ u. ground (
        arith,
        contains-gone_of online expired u,
        contains-expired_of limit m.to_check (keys m.to_check) u,
        contains-keys m.to_check u,
      ),
      λ u. ground (
        arith,
        lookup-check_heartbeats c now online expired pending u,
        contains-expired_of limit m.to_check (keys m.to_check) u,
        lookup-pending_of limit m.to_check (keys m.to_check) [] u,
        lookup-nil {V = ℕ} u,
        contains-keys m.to_check u,
      ),
    )

module _ (c : Config) (now : ℕ) (check : Text → Option Bool) (emits : Text → Bool) (u : Text)
    (raises : check u ≡ none) where
  other : (v : Text) (b : Bool) → check v ≡ some b → (u == v) ≡ false
  other v b answered = elim (text_dec u v) [
    | yes same ↦
        let impossible : none ≡ some b = sym raises ∙ ap check same ∙ answered in
        ground (arith, impossible)
    | no differ ↦ ground (arith, differ)
  ]

  -- Who is not checked is left as they were.
  unchecked :
      (us : List Text) (m : Manager)
      → (lookup u (check_heartbeats c now check emits us m).1.to_check ≡ lookup u m.to_check)
        × (contains (check_heartbeats c now check emits us m).1.disconnected u
            ≡ contains m.disconnected u)
  unfolding check_heartbeats
  unchecked [] m = (refl, refl)
  unchecked (v ∷ us) m = elim (Option-cases (check v)) [
    | inl raised ↦ rw (raised, check_heartbeats) (refl, refl)
    | inr (true, on) ↦
        let rest = unchecked us (add_heartbeat now v m) in
        rw (on, check_heartbeats)
          (ground (arith, other v true on, rest.0, lookup-insert u v now m.to_check), rest.1)
    | inr (false, off) ↦
        let rest = unchecked us (disconnect v (forget_sid c v m)) in
        rw (off, check_heartbeats)
          (elim (Bool-cases (emits v)) [
            | inl sent ↦
                rw (sent, check_heartbeats)
                  (
                    rest.0,
                    ground (
                      arith,
                      other v false off,
                      rest.1,
                      contains-append m.disconnected (v ∷ []) u,
                    ),
                  )
            | inr failed ↦ rw (failed, check_heartbeats) (refl, refl)
          ])
  ]

  -- A tracked user whose heartbeat is older than the timeout, and for whom the check of the cache
  -- raises, is lost by the round: they are not tracked any more, and have not been disconnected.
  pub round-loses :
      (m : Manager)
      → is_expired (now - c.expire_second) (lookup u m.to_check) ≡ true
      → (has_heartbeat u (round c now check emits m) ≡ false)
        × (contains (round c now check emits m).disconnected u ≡ contains m.disconnected u)
  unfolding round has_heartbeat
  round-loses m expired =
      let limit = now - c.expire_second in
      let pending = record m { to_check = pending_of limit m.to_check (keys m.to_check) [] } in
      let left = unchecked (expired_of limit m.to_check (keys m.to_check)) pending in
      (
        ground (
          arith,
          expired,
          left.0,
          lookup-pending_of limit m.to_check (keys m.to_check) [] u,
          lookup-nil {V = ℕ} u,
        ),
        left.1,
      )
