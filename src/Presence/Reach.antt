-- ===== src/Presence/Reach.antt =====
-- Runs of the changes of status of dino/db/rdbms/handler.py and dino/cache/redis.py, in any order,
-- and what holds after every one of them.
use dino.Prelude.{
  ℕ, Bool, true, false, Option, none, some, if◌then◌else◌, ◌≡◌, refl, arith, eqb, ◌∙◌, ap, sym, ◌⊎◌,
  inl, inr,
}
use dino.Prelude.Text.{Text, ◌==◌, strip}
use dino.Redis.{Client, TextKey}
use dino.Prelude.Int.{pos}
use dino.Redis.Commands.{is_offset, Commands, with_text}
use dino.Cache.Redis.Status.{fill_status, status_key, get_user_status}
use dino.Presence.{
  Node, Env, answer_status, status_of_user, status_from_row, row_status,
  remove_from_multicast_on_disconnect,
}
use dino.Presence.Changes as Changes
use dino.Prelude.Dict.{has, lookup}
use dino.Cache.Redis.{Value, CacheRedis, recall}
use dino.Redis.Commands.{see}
use dino.Redis.{get_text}
use dino.Presence.Seen.{seen}
use dino.Presence.Standing.{seen-status_from_row}
use dino.Presence.Standing.{standing, Change}
use dino.Presence.Rows.{
  has_row, has_row-set_user_online, has_row-set_user_offline, has_row-set_user_invisible,
}
use dino.Presence.Effects.{changes-refine}
use dino.Presence.Users.{Commits, set_user_online, set_user_offline, set_user_invisible}
use dino.Presence.Agreement.{agrees, agrees-left, agrees-changed, agrees-asked, written, no_commits}

module _ (is_user : Text → Bool) (number : Text → ℕ) where
  -- The users whose ids are numbers below 2^32, without spaces around them
  abbrev pub IsNumbered : Env → Text → Type 0
  IsNumbered env v =
      (is_user v ≡ true)
      × (env.int_float v ≡ some (pos (number v)))
      × (is_offset (pos (number v)) ≡ true)
      × (strip v ≡ v)

  same_number :
      ((u v : Text) → is_user u ≡ true → is_user v ≡ true → number u ≡ number v → u ≡ v)
      → (u v : Text) → is_user u ≡ true
      → is_user v ≡ true
      → eqb (number u) (number v) ≡ (u == v)
  same_number apart u v hu hv = grind (arith, apart u v hu hv)

module _ {S : Type 0} ⦃R : Client S⦄ ⦃C : Commands S R⦄ (is_user : Text → Bool)
    (number : Text → ℕ) where
  abbrev pub IsAgreed : Node S → Type 0
  IsAgreed node =
      (u : Text)
      → is_user u ≡ true
      → agrees (standing (number u) u (seen node)) (has_row u node) ≡ true

  pub data Step : Node S → Node S → Type 0 where
    online :
        (env : Env) (commits : Commits) (v : Text) (b : Bool) (node : Node S)
        → IsNumbered is_user number env v
        → Step node (set_user_online env commits v b node).1
    offline :
        (env : Env) (commits : Commits) (v : Text) (node : Node S)
        → IsNumbered is_user number env v
        → Step node (set_user_offline env commits v node).1
    invisible :
        (env : Env) (commits : Commits) (v : Text) (b : Bool) (node : Node S)
        → IsNumbered is_user number env v
        → Step node (set_user_invisible env commits v b node).1
    away :
        (env : Env) (v : Text) (node : Node S)
        → IsNumbered is_user number env v
        → Step node (Changes.set_user_away env v node)
    left_multicast :
        (env : Env) (v : Text) (node : Node S)
        → IsNumbered is_user number env v
        → Step node (remove_from_multicast_on_disconnect env v node)
    asked :
        (env : Env) (v : Text) (node : Node S)
        → IsNumbered is_user number env v
        → Step node (status_of_user env v node).1

  pub data Reach (s : Node S) : Node S → Type 0 where
    here : Reach s s
    next : {t u : Node S} → Reach s t → Step t u → Reach s u

  -- What get_user_status makes of what the memory answers and what Redis has
  abbrev found :
      Env → Text → Option Value → Option Text → CacheRedis S → Option Value × CacheRedis S
  found env v value stored st = elim value [
    | some s ↦ (some s, st)
    | none ↦ fill_status env.now v stored st
  ]

  seen-answer_status :
      (env : Env) (v : Text) (node : Node S) (value : Option Value) (stored : Option Text)
      (st : CacheRedis S)
      → (seen (answer_status env v node (found env v value stored st)).1 ≡ see st.redis)
        ⊎ ((stored ≡ none)
            × (seen (answer_status env v node (found env v value stored st)).1
                ≡ with_text (TextKey.user_status v) (row_status env v node) (see st.redis)))
  seen-answer_status env v node (some s) stored st = inl refl
  seen-answer_status env v node none (some s) st = inl refl
  seen-answer_status env v node none none st =
      inr (refl, seen-status_from_row env v (record node { store = st }))

  -- What is asked for is in Redis, or is filled in from the row.
  seen-status_of_user :
      (env : Env) (v : Text) (node : Node S)
      → (seen (status_of_user env v node).1 ≡ seen node)
        ⊎ ((R.run_get (TextKey.user_status v) node.store.redis ≡ none)
            × (seen (status_of_user env v node).1
                ≡ with_text (TextKey.user_status v) (row_status env v node) (seen node)))
  unfolding status_of_user get_user_status
  seen-status_of_user env v node =
      seen-answer_status env v node (recall env.now (status_key v) node.store).0
        (get_text (TextKey.user_status v) node.store.redis)
        (recall env.now (status_key v) node.store).1

  rows-status_of_user :
      (env : Env) (v : Text) (node : Node S)
      → (status_of_user env v node).1.status_rows ≡ node.status_rows
  unfolding status_of_user get_user_status status_from_row
  rows-status_of_user env v node = grind arith

  rows-set_user_away :
      (env : Env) (v : Text) (node : Node S)
      → (Changes.set_user_away env v node).status_rows ≡ node.status_rows
  unfolding Changes.set_user_away
  rows-set_user_away env v node = ground arith

  rows-remove_from_multicast :
      (env : Env) (v : Text) (node : Node S)
      → (remove_from_multicast_on_disconnect env v node).status_rows ≡ node.status_rows
  unfolding remove_from_multicast_on_disconnect
  rows-remove_from_multicast env v node = refl

  module _
      (apart : (u v : Text)
        → is_user u ≡ true
        → is_user v ≡ true
        → number u ≡ number v
        → u ≡ v) where
    Step-IsAgreed : {s t : Node S} → Step s t → IsAgreed s → IsAgreed t
    Step-IsAgreed (online env commits v b node (known, numbered, taken, stripped)) h u is_u =
        agrees-changed u v (standing (number u) u (seen node)) _ (has_row u node) _ (h u is_u)
          Change.to_online refl
          (changes-refine env commits (number u) u v (number v)
            (same_number is_user number apart u v is_u known) numbered taken stripped node b
            false).0
          (λ other. has_row-set_user_online env commits u v other node b)
    Step-IsAgreed (offline env commits v node (known, numbered, taken, stripped)) h u is_u =
        agrees-changed u v (standing (number u) u (seen node)) _ (has_row u node) _ (h u is_u)
          Change.to_offline refl
          (changes-refine env commits (number u) u v (number v)
            (same_number is_user number apart u v is_u known) numbered taken stripped node false
            false).1
          (λ other. has_row-set_user_offline env commits u v other node)
    Step-IsAgreed (invisible env commits v b node (known, numbered, taken, stripped)) h u is_u =
        agrees-changed u v (standing (number u) u (seen node)) _ (has_row u node) _ (h u is_u)
          (if b then Change.to_hidden_offline else Change.to_hidden) (written b)
          (changes-refine env commits (number u) u v (number v)
            (same_number is_user number apart u v is_u known) numbered taken stripped node false
            b).2
          (λ other. has_row-set_user_invisible env commits u v other node b)
    Step-IsAgreed (away env v node (known, numbered, taken, stripped)) h u is_u =
        agrees-changed u v (standing (number u) u (seen node)) _ (has_row u node) _ (h u is_u)
          Change.to_away refl
          (changes-refine env no_commits (number u) u v (number v)
            (same_number is_user number apart u v is_u known) numbered taken stripped node false
            false).3
          (λ other. ap (has u) (rows-set_user_away env v node))
    Step-IsAgreed (left_multicast env v node (known, numbered, taken, stripped)) h u is_u =
        agrees-left u v (standing (number u) u (seen node)) _ (has_row u node) _ (h u is_u)
          (ap (has u) (rows-remove_from_multicast env v node))
          (changes-refine env no_commits (number u) u v (number v)
            (same_number is_user number apart u v is_u known) numbered taken stripped node false
            false).4
    Step-IsAgreed (asked env v node (known, numbered, taken, stripped)) h u is_u =
        elim (seen-status_of_user env v node) [
          | inl same ↦ rw (same, ap (has u) (rows-status_of_user env v node)) (h u is_u)
          | inr (nothing, filled) ↦
              rw (filled, ap (has u) (rows-status_of_user env v node))
                (agrees-asked (number u) u v (seen node) (λ x. lookup x node.status_rows)
                  (sym (C.see_texts _ _) ∙ nothing) (h u is_u))
        ]

    -- In every node that the changes of status of users and the questions for their status reach, in
    -- any order, at any readings of the clock and with any commits of the relational database, from
    -- one in which this holds: the bit of a user is set exactly if they are in the set of the
    -- online; a user with the status of the available is in that set; one with the status of the
    -- unavailable is neither in it nor in the multicast set; and a user without a status is in
    -- neither and has no row. The users have numbers below 2^32 as ids, each
    -- their own.
    pub Reach-IsAgreed : {s t : Node S} → IsAgreed s → Reach s t → IsAgreed t
    Reach-IsAgreed start here = start
    Reach-IsAgreed start (next run step) = Step-IsAgreed step (Reach-IsAgreed start run)
