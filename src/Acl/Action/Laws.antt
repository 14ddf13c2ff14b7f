-- ===== src/Acl/Action/Laws.antt =====
-- Who may do what, by AclValidator.validate_acl_for_action of dino/validation/acl.py.
use dino.Prelude.{
  ℕ, true, false, Option, none, some, List, [], ◌∷◌, ◌≡◌, ◌↔◌, ◌⊎◌, refl, inl, inr, arith, All,
  Option-cases,
}
use dino.Prelude.Text.{Text, str}
use dino.Prelude.Dict.{Dict, lookup}
use dino.Prelude.Result.{ok}
use dino.Acl.{granted, Activity, Env, Validator}
use dino.Acl.Validators.{is_blank_or_none}
use dino.Acl.Call.{call}
use dino.Acl.Action.{
  or_else, has_rules, rule_acls, or_empty, is_empty, check_acls, channel_of, decide_action,
  validate_acl_for_action,
}

module _ (depth : ℕ) (env : Env) (act : Activity) (session : Dict Text)
    (target_acls : Dict Text) where
  -- An acl that is set on the target has a validator, and that one grants its value.
  abbrev pub Passes : Text → Type 0
  Passes acl =
      (lookup acl target_acls ≡ none)
      ⊎ ((value : Text) × (v : Validator) × (lookup acl target_acls ≡ some value)
          × (lookup acl env.validators ≡ some v)
          × (call depth env act v acl value false session ≡ ok granted))

  check_acls_sound :
      (acls : List Text)
      → check_acls depth env act session target_acls acls ≡ ok granted
      → All Passes acls
  unfolding check_acls
  check_acls_sound [] h = tt
  check_acls_sound (acl ∷ acls) h = elim (Option-cases (lookup acl target_acls)) [
    | inl unset ↦ (inl unset, check_acls_sound acls (ground arith))
    | inr (value, set) ↦ elim (Option-cases (lookup acl env.validators)) [
      | inl missing ↦ absurd (ground arith)
      | inr (v, found) ↦
          (inr (value, v, set, found, ground arith), check_acls_sound acls (ground arith))
    ]
  ]

  check_acls_complete :
      (acls : List Text)
      → All Passes acls
      → check_acls depth env act session target_acls acls ≡ ok granted
  unfolding check_acls
  check_acls_complete [] h = refl
  check_acls_complete (acl ∷ acls) (inl unset, h) =
      rw (unset, check_acls) (check_acls_complete acls h)
  check_acls_complete (acl ∷ acls) (inr (value, v, set, found, passes), h) =
      rw (check_acls, set, found, passes) (check_acls_complete acls h)

-- The grounds on which an action is allowed: a role above the acls, no rules for the action, an
-- owner, no acls on the target, or all that are set there pass.
abbrev pub Allowed :
    ℕ
    → Env
    → Activity
    → Dict Text
    → Text
    → Text
    → Option (Dict Text)
    → Option Text
    → Option Text
    → Type 0
Allowed depth env act session target action target_acls target_id channel =
    (env.roles.admin channel act.actor_id ≡ true)
    ⊎ (env.roles.super_user act.actor_id ≡ true)
    ⊎ (env.roles.global_moderator act.actor_id ≡ true)
    ⊎ (has_rules (env.actions target action) ≡ false)
    ⊎ (env.roles.owner_channel channel act.actor_id ≡ true)
    ⊎ ((target ≡ str "room") × (env.roles.owner target_id act.actor_id ≡ true))
    ⊎ (or_empty target_acls ≡ [])
    ⊎ All (Passes depth env act session (or_empty target_acls))
        (rule_acls (env.actions target action))

is_empty-eq : (d : Dict Text) → (is_empty d ≡ true) ↔ (d ≡ [])
is_empty-eq [] = ((λ _. refl), λ _. refl)
is_empty-eq (p ∷ d) = ((λ h. cc), λ h. cc)

module _ (depth : ℕ) (env : Env) (act : Activity) (session : Dict Text) (target action : Text)
    (target_acls : Option (Dict Text)) (target_id channel : Option Text) where
  decide_action_sound :
      decide_action depth env act session target action target_acls target_id channel ≡ ok granted
      → Allowed depth env act session target action target_acls target_id channel
  unfolding decide_action
  decide_action_sound h = ground (
    arith,
    is_empty-eq (or_empty target_acls),
    check_acls_sound depth env act session (or_empty target_acls)
        (rule_acls (env.actions target action)),
  )

  decide_action_complete :
      Allowed depth env act session target action target_acls target_id channel
      → decide_action depth env act session target action target_acls target_id channel ≡ ok granted
  unfolding decide_action
  decide_action_complete h = ground (
    arith,
    is_empty-eq (or_empty target_acls),
    check_acls_complete depth env act session (or_empty target_acls)
        (rule_acls (env.actions target action)),
  )

-- An action is granted exactly on one of these grounds, once the activity names the type of its
-- target and the channel is found.
pub validate_acl_for_action_iff :
    (depth : ℕ) (env : Env) (act : Activity) (session : Dict Text) (target action : Text)
    (target_acls : Option (Dict Text)) (target_id channel_id channel : Option Text)
    → is_blank_or_none act.target_object_type ≡ false
    → channel_of depth env act session target (or_else target_id act.target_id) channel_id
      ≡ ok channel
    → (validate_acl_for_action depth env act session target action target_acls target_id channel_id
        ≡ ok granted)
      ↔ Allowed depth env act session target action target_acls
          (or_else target_id act.target_id)
          channel
unfolding validate_acl_for_action
validate_acl_for_action_iff depth env act session target action target_acls target_id channel_id
      channel typed found =
    rw (typed, found)
      (
        decide_action_sound depth env act session target action target_acls
            (or_else target_id act.target_id) channel,
        decide_action_complete depth env act session target action target_acls
            (or_else target_id act.target_id) channel,
      )
