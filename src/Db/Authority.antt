-- ===== src/Db/Authority.antt =====
-- The database of dino/db/redis.py behind the questions that dino/validation/acl.py asks it, by
-- is_admin, is_super_user, get_channel_for_room and so on of dino/utils/__init__.py.
use dino.Prelude.{
  ◌≢◌, refl, ◌∙◌, [], inl, inr, ◌⊎◌, Bool, true, false, Option, none, some, ◌≡◌, ℕ, arith,
}
use dino.Prelude.Text.{Text, str, ◌==◌, text_dec}
use dino.Prelude.Dict.{Dict}
use dino.Prelude.Result.{Result, ok, err}
use dino.Acl.{Exception, Roles, Env, Activity, granted}
use dino.Acl.Action.{or_else, channel_of, validate_acl_for_action}
use dino.Acl.Validators.{is_blank_or_none}
use dino.Acl.Action.Laws.{validate_acl_for_action_iff}
use dino.Redis.{Client}
use dino.Db.{Database, Error}
use dino.Db.Roles.{channel_for_room, has_role_in_channel, has_global_role}
use dino.Db.Roles.Calls.{
  is_admin, is_owner_channel, is_owner, is_moderator, is_super_user, is_global_moderator,
}
use dino.Db.Roles.Grants.{succeeded, globally, same_grant}
use dino.Db.RoleKeys
use dino.Db.Roles.Refines.{
  Kind, admin, owner_channel, moderator, owner, super_user, global_moderator, give, grant_of,
  give-Adds,
}
use dino.Db.Rooms.{room_contains}

-- The exceptions that cross from one to the other; `channel_for_room` and `room_contains` raise
-- no more than the first two.
abbrev pub as_exception : Error → Exception
as_exception Error.no_such_room = Exception.no_such_room
as_exception Error.no_channel_found = Exception.no_channel_found
as_exception Error.no_such_channel = Exception.no_such_channel
as_exception _ = Exception.value_error

abbrev pub as_result {ℓ} : {A : Type ℓ} → Result Error A → Result Exception A
as_result (ok a) = ok a
as_result (err e) = err (as_exception e)

-- The id that None becomes in a key.
abbrev pub or_none : Option Text → Text
or_none none = str "None"
or_none (some id) = id

module _ {S : Type 0} ⦃R : Client S⦄ where
  -- get_channel_for_room; what the call puts into the cache is not kept.
  abbrev pub channel_or_raise : Option Text → Database S → Result Exception Text
  channel_or_raise none db = err Exception.no_such_room
  channel_or_raise (some room_id) db = as_result (channel_for_room room_id db).0

  unfoldable pub roles_in : Database S → Roles
  roles_in db = record {
    admin = λ channel user. is_admin (or_none channel) (some user) db;
    owner_channel = λ channel user. is_owner_channel (or_none channel) (some user) db;
    owner = λ room user. is_owner (or_none room) (some user) db;
    moderator = λ room user. is_moderator (or_none room) (some user) db;
    super_user = λ user. is_super_user (some user) db;
    global_moderator = λ user. is_global_moderator (some user) db;
    channel_for_room = λ room. channel_or_raise room db;
    room_contains = λ room user. as_result (room_contains room user db).0;
  }

  -- The environment in front of a database.
  abbrev pub env_in : Env → Database S → Env
  env_in env db = record env { roles = roles_in db }

-- The roles that stand above every acl where the database finds them. It does not find global
-- moderators.
abbrev pub is_privileged : Kind → Bool
is_privileged admin = true
is_privileged super_user = true
is_privileged _ = false

not_granted :
    (kind : Kind) (place user asked : Text)
    → (RoleKeys.global_moderator == user) ≡ false
    → same_grant (globally asked RoleKeys.global_moderator) (grant_of kind place user) ≡ false
unfolding text_dec
not_granted admin place user asked other = refl
not_granted owner_channel place user asked other = refl
not_granted moderator place user asked other = refl
not_granted owner place user asked other = refl
not_granted super_user place user asked other = ground (arith, other)
not_granted global_moderator place user asked other = ground (arith, other)

module _ {S : Type 0} ⦃R : Client S⦄ where
  -- The answer to the first or the second question of the validator.
  Answers : Kind → Text → Text → Database S → Type 0
  Answers kind place user db =
      ((roles_in db).admin (some place) user ≡ true) ⊎ ((roles_in db).super_user user ≡ true)

  give-Answers :
      (kind : Kind) (place user : Text) (db : Database S)
      → is_privileged kind ≡ true
      → succeeded (give kind place user db) ≡ true
      → Answers kind place user (give kind place user db).1
  unfolding Answers roles_in is_admin is_super_user has_role_in_channel has_global_role
  give-Answers admin place user db p done =
      inl
        (ground (arith, done, give-Adds admin place user db (grant_of admin place user) (λ h. cc)))
  give-Answers super_user place user db p done = inr (
      ground (
        arith,
        done,
        give-Adds super_user place user db (grant_of super_user place user) (λ h. cc),
      ))
  give-Answers global_moderator place user db p done = cc
  give-Answers owner_channel place user db p done = cc
  give-Answers moderator place user db p done = cc
  give-Answers owner place user db p done = cc

  -- Whoever was made a super user or an admin of the channel is allowed every action in the channel
  -- whatever the acls say, once the activity names the type of its target and the database finds the
  -- channel: these two roles, as the database stores them, are those that the validator asks for.
  pub give-granted :
      (kind : Kind) (place : Text) (db : Database S) (depth : ℕ) (env : Env) (act : Activity)
      → (session : Dict Text) (target action : Text) (target_acls : Option (Dict Text))
      → (target_id channel_id : Option Text) → is_privileged kind ≡ true
      → succeeded (give kind place act.actor_id db) ≡ true
      → is_blank_or_none act.target_object_type ≡ false
      → channel_of depth
          (env_in env (give kind place act.actor_id db).1)
          act
          session
          target
          (or_else target_id act.target_id)
          channel_id
        ≡ ok (some place)
      → validate_acl_for_action depth
          (env_in env (give kind place act.actor_id db).1)
          act
          session
          target
          action
          target_acls
          target_id
          channel_id
        ≡ ok granted
  unfolding Answers
  give-granted kind place db depth env act session target action target_acls target_id channel_id
        privileged done typed found =
      (validate_acl_for_action_iff depth (env_in env (give kind place act.actor_id db).1) act
          session target action target_acls target_id channel_id (some place) typed found).1
        (elim (give-Answers kind place act.actor_id db privileged done) [
          | inl a ↦ inl a
          | inr b ↦ inr (inl b)
        ])

  -- No role that is given to a user changes who is found to be a global moderator, not even that of
  -- a global moderator, unless the id of the user who gets it is the name of that role,
  -- 'globalmod'. The id that is asked for is not empty.
  pub give-is_global_moderator :
      (kind : Kind) (place user asked : Text) (db : Database S)
      → (RoleKeys.global_moderator == user) ≡ false
      → asked ≢ []
      → is_global_moderator (some asked) (give kind place user db).1
        ≡ is_global_moderator (some asked) db
  unfolding is_global_moderator
  give-is_global_moderator kind place user asked db other named =
      give-Adds kind place user db (globally asked RoleKeys.global_moderator) named
      ∙ ground (arith, not_granted kind place user asked other)
