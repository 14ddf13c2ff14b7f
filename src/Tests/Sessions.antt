-- ===== src/Tests/Sessions.antt =====
-- Logins, acls that are set, and messages that were read, at a small configuration.
use dino.Prelude.{
  true, false, not, ◌&&◌, ◌||◌, none, some, [], ◌∷◌, ◌≡◌, ◌↔◌, ◌≤◌, refl, All, length, all,
}
use dino.Prelude.Text.{Text, ◌==◌, text_dec, str, is_blank}
use dino.Prelude.Dict.{Dict, lookup, insert}
use dino.Prelude.Result.{ok}
use dino.Redis.{Key, hget}
use dino.Redis.Model.{Server, model}
use dino.Auth.{populate, authenticate_and_populate_session}
use dino.Request.{valid, can_edit_acl}
use dino.Request.Session.{is_given, validate_login, validate_session, set_all, on_login}
use dino.Request.Session.Login.{on_login-token}
use dino.Request.SetAcl.{NewAcl, AclFine, on_set_acl, on_set_acl_iff}
use dino.Request.Acks.{distinct, differ, on_read, on_received, on_read_iff}
use dino.Tests.Acls.{env}
use dino.Tests.Requests.{answers}

abbrev stored : Key → Dict Text
stored (Key.auth u) =
    (str "user_id", str "5") ∷ (str "user_name", str "ann") ∷ (str "token", str "t") ∷ []
stored _ = []

abbrev server : Server
server = record {
  hashes = stored;
  sets = λ k. [];
  texts = λ k. none;
  bits = λ n. false;
  scores = [];
  ttls = λ k. none;
}

token_given : lookup (str "token") (set_all ((str "token", str "t") ∷ []) []) ≡ some (str "t")
unfolding set_all insert lookup text_dec
token_given = refl

logged_in :
    (on_login
      (authenticate_and_populate_session server)
      false
      (str "5")
      ((str "token", str "t") ∷ [])
      []).0
    ≡ valid
unfolding on_login validate_login validate_session authenticate_and_populate_session populate
    set_all insert lookup text_dec
logged_in = refl

on_login-token_example :
    (false ≡ false)
    × (hget (Key.auth (str "5")) (str "token") server ≡ some (str "t"))
    × (is_given (hget (Key.auth (str "5")) (str "user_id") server) ≡ true)
    × (is_given (hget (Key.auth (str "5")) (str "user_name") server) ≡ true)
on_login-token_example =
    on_login-token server false (str "5") (str "t") ((str "token", str "t") ∷ []) [] token_given
      logged_in

abbrev age_acl : NewAcl
age_acl = record {
  object_type = str "age";
  summary = some (str "join");
  content = some (str "18:");
}

on_set_acl_iff_example :
    (on_set_acl 5 env
        (str "age" ∷ [])
        answers
        (some (str "room"))
        none
        (str "r")
        (str "o")
        (age_acl ∷ [])
      ≡ ok valid)
    ↔ ((((str "room" == str "channel" || str "room" == str "room") ≡ true)
          × (can_edit_acl answers (str "room") none (str "r") (str "o") ≡ ok true))
        × All (AclFine 5 env (str "age" ∷ [])) (age_acl ∷ []))
on_set_acl_iff_example =
    on_set_acl_iff 5 env (str "age" ∷ []) answers (str "room") (str "r") (str "o") none
      (age_acl ∷ []) refl

on_read_iff_example :
    ((on_read (λ i. true) (some (str "read")) (some (str "r")) (some (str "m" ∷ str "m" ∷ []))
        ≡ valid)
      ↔ ((not (is_blank (str "r"))
            && str "read" == str "read"
            && all (λ i. true) (str "m" ∷ str "m" ∷ []))
          ≡ true)
        × (differ (distinct (str "m" ∷ str "m" ∷ []) []) ≡ true)
        × (1 ≤ length (distinct (str "m" ∷ str "m" ∷ []) []))
        × (length (distinct (str "m" ∷ str "m" ∷ []) []) ≤ 500))
    × ((on_received (λ i. true) (some (str "read")) (some (str "r")) (some (str "m" ∷ str "m" ∷ []))
          ≡ valid)
        ↔ ((not (is_blank (str "r"))
              && str "read" == str "receive"
              && all (λ i. true) (str "m" ∷ str "m" ∷ []))
            ≡ true)
          × (differ (distinct (str "m" ∷ str "m" ∷ []) []) ≡ true)
          × (1 ≤ length (distinct (str "m" ∷ str "m" ∷ []) []))
          × (length (distinct (str "m" ∷ str "m" ∷ []) []) ≤ 500))
on_read_iff_example = on_read_iff (λ i. true) (str "read") (str "r") (str "m" ∷ str "m" ∷ [])
