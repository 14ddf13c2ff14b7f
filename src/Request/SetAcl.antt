-- ===== src/Request/SetAcl.antt =====
-- RequestValidator.on_set_acl and on_get_acl of dino/validation/request.py.
use dino.Prelude.{
  ℕ, Bool, true, false, not, ◌||◌, Option, none, some, List, [], ◌∷◌, if◌then◌else◌, ◌≡◌, ◌↔◌, refl,
  arith, All,
}
use dino.Prelude.Text.{Text, ◌==◌, str, contains, is_blank}
use dino.Prelude.Result.{ok, ◌>>=◌}
use dino.Acl.{granted, denied, Env}
use dino.Acl.Action.{is_acl_valid}
use dino.Db.Acls.{all_api_actions}
use dino.Request.{ErrorCode, valid, invalid, Queries, is_operator, nonblank, can_edit_acl}
use dino.Request.Rooms.{Answered, no}

-- An attachment of a request to set acls
pub record NewAcl : Type 0 where
  pub object_type : Text
  pub summary : Option Text
  pub content : Option Text

abbrev pub is_api_action : Option Text → Bool
is_api_action none = false
is_api_action (some action) = contains all_api_actions action

module _ (depth : ℕ) (env : Env) (available : List Text) where
  -- The loop over the attachments
  unfoldable pub check_new_acls : List NewAcl → Answered
  check_new_acls [] = ok valid
  check_new_acls (acl ∷ acls) =
      let rest = check_new_acls acls in
      if not (contains available acl.object_type)
      then no ErrorCode.invalid_acl_type
      else if not (is_api_action acl.summary)
      then no ErrorCode.invalid_acl_action
      else (is_acl_valid depth env acl.object_type acl.content >>= λ verdict. elim verdict [
        | granted ↦ rest
        | denied r ↦ no ErrorCode.invalid_acl_value
      ])

  -- on_set_acl once the type of the target is known
  abbrev pub set_acls : Queries → Text → Option Text → Text → Text → List NewAcl → Answered
  set_acls q object_type object_url target_id user_id acls =
      can_edit_acl q object_type object_url target_id user_id >>= λ can_edit.
      if not can_edit
      then no ErrorCode.not_allowed
      else if is_operator q user_id
      then ok valid
      else check_new_acls acls

  -- on_set_acl
  unfoldable pub on_set_acl :
      Queries → Option Text → Option Text → Text → Text → List NewAcl → Answered
  on_set_acl q none object_url target_id user_id acls = no ErrorCode.invalid_target_type
  on_set_acl q (some object_type) object_url target_id user_id acls =
      if is_blank object_type
      then no ErrorCode.invalid_target_type
      else if not (object_type == str "channel" || object_type == str "room")
      then no ErrorCode.invalid_target_type
      else set_acls q object_type object_url target_id user_id acls

  -- An acl of a type that is available, for an action of the api, with a value that is valid
  abbrev pub AclFine : NewAcl → Type 0
  AclFine acl =
      (contains available acl.object_type ≡ true)
      × (is_api_action acl.summary ≡ true)
      × (is_acl_valid depth env acl.object_type acl.content ≡ ok granted)

  check_new_acls_iff : (acls : List NewAcl) → (check_new_acls acls ≡ ok valid) ↔ All AclFine acls
  unfolding check_new_acls
  check_new_acls_iff [] = ((λ _. tt), λ _. refl)
  check_new_acls_iff (acl ∷ acls) = ground (arith, check_new_acls_iff acls)

  -- Setting acls is accepted from a user who is no operator exactly on a room or a channel whose acls
  -- they may edit, if every one of the acls is of a type that is available, for an action of the api,
  -- and has a valid value.
  pub on_set_acl_iff :
      (q : Queries) (object_type target_id user_id : Text) (object_url : Option Text)
      (acls : List NewAcl)
      → is_operator q user_id ≡ false
      → (on_set_acl q (some object_type) object_url target_id user_id acls ≡ ok valid) ↔ (
          (((object_type == str "channel" || object_type == str "room") ≡ true)
            × (can_edit_acl q object_type object_url target_id user_id ≡ ok true))
          × All AclFine acls)
  unfolding on_set_acl
  on_set_acl_iff q object_type target_id user_id object_url acls ordinary =
      ground (arith, ordinary, check_new_acls_iff acls)

-- on_get_acl, of an activity whose target is there
unfoldable pub on_get_acl : Option Text → Option Text → Answered
on_get_acl target_id object_type = nonblank target_id (invalid ErrorCode.missing_target_id) λ _.
    nonblank object_type (invalid ErrorCode.invalid_object_type) λ t.
      if not (contains (str "room" ∷ str "channel" ∷ []) t)
      then no ErrorCode.invalid_object_type
      else ok valid
