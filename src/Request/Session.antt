-- ===== src/Request/Session.antt =====
-- BaseValidator of dino/validation/base.py, and the requests of RequestValidator of
-- dino/validation/request.py that are about the session: login, disconnect and status. A session is
-- a dict, whose values are texts.
pub mod Login
use dino.Prelude.{
  Bool, true, false, not, ◌&&◌, ◌||◌, Option, none, some, List, [], ◌∷◌, if◌then◌else◌,
}
use dino.Prelude.Text.{Text, ◌==◌, str, strip, contains}
use dino.Prelude.Dict.{Dict, lookup, insert}
use dino.Acl.{Roles}
use dino.Request.{ErrorCode, Answer, valid, invalid}

-- What a service for authentication answers: the session of the user, or `none`.
abbrev pub Authenticate : Type 0
Authenticate = Text → Text → Option (Dict Text)

abbrev pub or_text : Option Text → Text → Text
or_text none other = other
or_text (some t) other = t

-- BaseValidator.validate_request
unfoldable pub validate_request : Dict Text → Option Text → Bool
validate_request session none = false
validate_request session (some actor_id) =
    strip actor_id == strip (or_text (lookup (str "user_id") session) (str "NOT_FOUND_IN_SESSION"))

-- SessionKeys.requires_session_keys, in the order of SessionKeys
abbrev pub required_keys : List Text
required_keys = str "user_id" ∷ str "user_name" ∷ str "token" ∷ []

abbrev pub is_given : Option Text → Bool
is_given none = false
is_given (some val) = not (val == str "")

abbrev pub keys_given : Dict Text → List Text → Bool
keys_given session [] = true
keys_given session (key ∷ rest) = is_given (lookup key session) && keys_given session rest

-- BaseValidator.validate_session
unfoldable pub validate_session : Dict Text → Bool
validate_session session = keys_given session required_keys

-- BaseValidator.validate_login: the session, if it is valid.
unfoldable pub validate_login : Authenticate → Text → Text → Option (Dict Text)
validate_login authenticate user_id token = elim (authenticate user_id token) [
  | none ↦ none
  | some session ↦ if validate_session session then some session else none
]

-- `environ.env.session[key] = value` for the entries, the first one first
unfoldable pub set_all : Dict Text → Dict Text → Dict Text
set_all [] session = session
set_all ((key, value) ∷ rest) session = set_all rest (insert key value session)

abbrev pub logged_in : Option (Dict Text) → Dict Text → Answer × Dict Text
logged_in none session = (invalid ErrorCode.not_allowed, session)
logged_in (some found) session = (valid, set_all found session)

-- on_login: the answer and the session after it. The attachments of the actor are their types and
-- contents.
unfoldable pub on_login : Authenticate → Bool → Text → Dict Text → Dict Text → Answer × Dict Text
on_login authenticate is_banned_globally user_id attachments session =
    if is_banned_globally
    then (invalid ErrorCode.user_is_banned, session)
    else (let session' = set_all attachments session in
        elim (lookup (str "token") session') [
          | none ↦ (invalid ErrorCode.no_user_in_session, session')
          | some token ↦ logged_in (validate_login authenticate user_id token) session'
        ])

-- on_disconnect
unfoldable pub on_disconnect : Dict Text → Answer
on_disconnect session = elim (lookup (str "user_id") session) [
  | none ↦ invalid ErrorCode.no_user_in_session
  | some _ ↦ elim (lookup (str "user_name") session) [
    | none ↦ invalid ErrorCode.no_user_in_session
    | some _ ↦ valid
  ]
]

-- _can_be_invisible, of a user that is perhaps not in the session
abbrev pub can_be_invisible : Bool → Roles → Text → Bool
can_be_invisible unrestricted roles user_id =
    unrestricted || (roles.super_user user_id || roles.global_moderator user_id)

abbrev pub statuses : List Text
statuses = str "online" ∷ str "offline" ∷ str "invisible" ∷ []

-- _check_status
unfoldable pub check_status : Bool → Roles → Text → Text → Answer
check_status unrestricted roles user_id status =
    if not (contains statuses status)
    then invalid ErrorCode.invalid_status
    else if status == str "invisible" && not (can_be_invisible unrestricted roles user_id)
    then invalid ErrorCode.not_allowed
    else valid

-- on_status, whose end is that of _check_status, with a user in the session
unfoldable pub on_status : Bool → Roles → Dict Text → Option Text → Text → Answer
on_status unrestricted roles session actor_id status = elim (lookup (str "user_name") session) [
  | none ↦ invalid ErrorCode.no_user_in_session
  | some _ ↦
      if not (validate_request session actor_id)
      then invalid ErrorCode.not_allowed
      else check_status unrestricted roles (or_text (lookup (str "user_id") session) []) status
]
