-- ===== src/Presence/Hooks.antt =====
-- OnStatusHooks of dino/hooks/status.py: what a request for a status does. What is emitted to the
-- rooms of the user is left out.
use dino.Prelude.{Bool, true, false, not, ◌||◌, none, some, List, [], ◌∷◌, if◌then◌else◌, Option}
use dino.Prelude.Text.{Text, ◌==◌, str, contains}
use dino.Prelude.Result.{Result, ok, err}
use dino.Prelude.Int.{ℤ, pos}
use dino.Redis.{Client}
use dino.Redis.Commands.{Commands}
use dino.Cache.Redis.{Value, text}
use dino.Cache.Redis.Status.{is_text, status_available, status_invisible}
use dino.Presence.{
  Node, Env, publish, status_of_user, status_from_row, user_is_in_multicast, get_last_online,
}
use dino.Presence.Changes as Changes
use dino.Presence.Changes.{Raised, status_away}
use dino.Presence.Users.{Commits, set_user_online, set_user_offline, set_user_invisible}

-- UserKeys.STATUS_CHAT
abbrev pub status_chat : Text
status_chat = str "2"

abbrev pub is_one_of : List Text → Value → Bool
is_one_of statuses (text t) = contains statuses t
is_one_of statuses _ = false

-- user_is_online of dino/utils/__init__.py, of the status
abbrev pub counts_as_online : Value → Bool
counts_as_online = is_one_of (status_available ∷ status_chat ∷ status_invisible ∷ status_away ∷ [])

-- Whether the status was changed, and how the call ended
abbrev pub Outcome : Type 0 → Type 0
Outcome S = Result Raised Bool × Node S

module _ {S : Type 0} ⦃R : Client S⦄ ⦃C : Commands S R⦄ (env : Env) (commits : Commits) where
  abbrev pub changed_to : Result Raised (Unit {0}) × Node S → Outcome S
  changed_to (ok t, node) = (ok true, node)
  changed_to (err e, node) = (err e, node)

  -- set_online, which asks whether the user was invisible first
  unfoldable pub set_online : Text → Node S → Outcome S
  set_online user_id node =
      changed_to (set_user_online env commits user_id false (status_of_user env user_id node).1)

  -- set_offline
  unfoldable pub set_offline : Text → Node S → Outcome S
  set_offline user_id node = changed_to (set_user_offline env commits user_id node)

  -- set_away
  unfoldable pub set_away : Text → Node S → Outcome S
  set_away user_id node =
      let (status, node') = status_of_user env user_id node in
      if is_text status_available (some status)
      then (ok true, Changes.set_user_away env user_id node')
      else (ok false, node')

  -- set_back
  unfoldable pub set_back : Text → Node S → Outcome S
  set_back user_id node =
      let (status, node') = status_of_user env user_id node in
      if is_text status_away (some status)
      then (ok true, Changes.set_user_online env user_id node')
      else (ok false, node')

  -- set_visible, by the status in the relational database
  unfoldable pub set_visible : Text → Node S → Outcome S
  set_visible user_id node =
      let (status, node') = status_from_row env user_id node in
      if is_one_of (status_available ∷ status_chat ∷ []) status
      then (ok true, node')
      else if user_is_in_multicast env user_id node'
      then set_online user_id node'
      else set_offline user_id node'

  -- set_invisible; a stage that is missing is 'status'.
  unfoldable pub set_invisible : Text → Text → Node S → Outcome S
  set_invisible user_id stage node =
      let (status, node') = status_of_user env user_id node in
      if is_text status_invisible (some status)
      then (ok true, node')
      else if stage == str "login"
      then changed_to (set_user_invisible env commits user_id true node')
      else (let (again, node'') = status_of_user env user_id node' in
          changed_to (set_user_invisible env commits user_id (not (counts_as_online again)) node''))

  -- The branches of set_status; other statuses change nothing and count as changed.
  abbrev pub set_to : Text → Text → Text → Node S → Outcome S
  set_to status user_id stage node =
      if status == str "online"
      then set_online user_id node
      else if status == str "invisible"
      then set_invisible user_id stage node
      else if status == str "visible"
      then set_visible user_id node
      else if status == str "offline"
      then set_offline user_id node
      else if status == str "away"
      then set_away user_id node
      else if status == str "back"
      then set_back user_id node
      else (ok true, node)

  -- What is put into the event: the last time online, or the current time
  abbrev pub time_of : Text → Text → Node S → Option ℤ × Node S
  time_of status user_id node =
      if status == str "offline" || status == str "invisible"
      then get_last_online env user_id node
      else if status == str "away"
      then (some (pos env.now), node)
      else (none, node)

  abbrev pub publish_if : Text → Text → Bool → Option ℤ × Node S → Node S
  publish_if status user_id status_changed (updated, node) =
      if status_changed
      then publish
          (record { verb = status; actor = user_id; to_status_topic = false; updated = updated })
          node
      else node

  -- The end of set_status, unless a branch raised
  abbrev pub tell : Text → Text → Outcome S → Result Raised (Unit {0}) × Node S
  tell status user_id (err e, node) = (err e, node)
  tell status user_id (ok status_changed, node) =
      (ok tt, publish_if status user_id status_changed (time_of status user_id node))

  -- set_status, of a user who is an operator or not; is_valid_id is an argument. For an operator the
  -- status is asked for, to log it.
  unfoldable pub set_status :
      Bool → Bool → Text → Text → Text → Node S → Result Raised (Unit {0}) × Node S
  set_status is_valid_id is_operator status user_id stage node =
      if not is_valid_id
      then (ok tt, node)
      else tell status user_id (
          set_to status user_id stage
            (if is_operator then (status_of_user env user_id node).1 else node))
