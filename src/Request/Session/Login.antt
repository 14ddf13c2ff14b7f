-- ===== src/Request/Session/Login.antt =====
-- Who can log in with the sessions of dino/auth/redis.py, by on_login of
-- dino/validation/request.py and validate_login of dino/validation/base.py.
use dino.Prelude.{
  Bool, true, false, Option, none, some, List, [], ◌∷◌, if◌then◌else◌, ◌≡◌, refl, arith,
  Option-cases, inl, inr, ◌∙◌, ap, sym,
}
use dino.Prelude.Text.{Text, ◌==◌, str, contains}
use dino.Prelude.Dict.{Dict, lookup, insert, lookup-insert, lookup-nil}
use dino.Redis.{Client, Key, hget, hgetall}
use dino.Auth.{session_keys, populate, authenticate_and_populate_session}
use dino.Request.{valid}
use dino.Request.Session.{is_given, validate_session, validate_login, set_all, on_login}

-- What is found under a key of the session
abbrev given_only : Option Text → Option Text
given_only none = none
given_only (some value) = if value == str "" then none else some value

abbrev or_old : Option Text → Option Text → Option Text
or_old none old = old
or_old (some v) old = some v

-- One round of the loop
abbrev put : Dict Text → Text → Dict Text → Dict Text
put stored j session = elim (lookup j stored) [
  | none ↦ session
  | some value ↦ if value == str "" then session else insert j value session
]

lookup-put :
    (stored : Dict Text) (k j : Text) (session : Dict Text)
    → lookup k (put stored j session) ≡ (
        if k == j
        then or_old (given_only (lookup j stored)) (lookup k session)
        else lookup k session)
lookup-put stored k j session = elim (Option-cases (lookup j stored)) [
  | inl nothing ↦ ground (arith, nothing)
  | inr (v, found) ↦ ground (arith, found, lookup-insert k j v session)
]

lookup-populate :
    (stored : Dict Text) (k : Text) (keys : List Text) (session : Dict Text)
    → lookup k (populate stored keys session) ≡ (
        if contains keys k
        then or_old (given_only (lookup k stored)) (lookup k session)
        else lookup k session)
unfolding populate
lookup-populate stored k [] session = refl
lookup-populate stored k (j ∷ keys) session =
    lookup-populate stored k keys (put stored j session)
    ∙ grind (arith, lookup-put stored k j session)

given-populate :
    (stored : Dict Text) (k : Text)
    → is_given (lookup k (populate stored session_keys [])) ≡ true
    → is_given (lookup k stored) ≡ true
given-populate stored k h =
    ground (arith, h, lookup-populate stored k session_keys [], lookup-nil {V = Text} k)

module _ {S : Type 0} ⦃R : Client S⦄ where
  authenticate_sound :
      (s : S) (user_id token : Text) (found : Dict Text)
      → authenticate_and_populate_session s user_id token ≡ some found
      → (lookup (str "token") (hgetall (Key.auth user_id) s) ≡ some token)
        × (populate (hgetall (Key.auth user_id) s) session_keys [] ≡ found)
  unfolding authenticate_and_populate_session
  authenticate_sound s user_id token found h =
      elim (Option-cases (lookup (str "token") (hgetall (Key.auth user_id) s))) [
        | inl nothing ↦ absurd (ground (arith, h, nothing))
        | inr (stored, has) ↦ ground (arith, h, has)
      ]

  validate_session_sound :
      (s : S) (user_id : Text)
      → validate_session (populate (hgetall (Key.auth user_id) s) session_keys []) ≡ true
      → (is_given (hget (Key.auth user_id) (str "user_id") s) ≡ true)
        × (is_given (hget (Key.auth user_id) (str "user_name") s) ≡ true)
  unfolding validate_session
  validate_session_sound s user_id h =
      let stored = hgetall (Key.auth user_id) s in
      (
        ap is_given (sym (R.hgetall_law _ _ _))
            ∙ given-populate stored (str "user_id") (ground (arith, h)),
        ap is_given (sym (R.hgetall_law _ _ _))
            ∙ given-populate stored (str "user_name") (ground (arith, h)),
      )

  -- A login with the sessions in Redis is accepted only for a user who is not banned globally, with
  -- the token that is stored for that user, where a user id and a user name are stored too. The token is
  -- the one in the session, once the attachments of the actor are put into it.
  pub on_login-token :
      (s : S) (banned : Bool) (user_id token : Text) (attachments session : Dict Text)
      → lookup (str "token") (set_all attachments session) ≡ some token
      → (on_login (authenticate_and_populate_session s) banned user_id attachments session).0
        ≡ valid
      → (banned ≡ false)
        × (hget (Key.auth user_id) (str "token") s ≡ some token)
        × (is_given (hget (Key.auth user_id) (str "user_id") s) ≡ true)
        × (is_given (hget (Key.auth user_id) (str "user_name") s) ≡ true)
  unfolding on_login validate_login
  on_login-token s banned user_id token attachments session supplied accepted =
      elim (Option-cases (authenticate_and_populate_session s user_id token)) [
        | inl nothing ↦ absurd (ground (arith, supplied, accepted, nothing))
        | inr (found, is_found) ↦
            let (stored, same) = authenticate_sound s user_id token found is_found in
            let (has_id, has_name) =
              validate_session_sound s user_id
                (rw same (ground (arith, supplied, accepted, is_found))) in
            (
              ground (arith, supplied, accepted),
              sym (R.hgetall_law _ _ _) ∙ stored,
              has_id,
              has_name,
            )
      ]
