-- ===== src/Auth.antt =====
-- AuthRedis of dino/auth/redis.py: the sessions that another service has stored in Redis. A session
-- without entries has no token.
use dino.Prelude.{Bool, false, Option, none, some, List, [], ◌∷◌, if◌then◌else◌}
use dino.Prelude.Text.{Text, ◌==◌, str}
use dino.Prelude.Dict.{Dict, lookup, insert}
use dino.Redis.{Key, Client, hset, hgetall}

-- The values of SessionKeys that are texts
abbrev pub session_keys : List Text
session_keys =
    str "user_id"
    ∷ str "user_name"
    ∷ str "age"
    ∷ str "gender"
    ∷ str "membership"
    ∷ str "group"
    ∷ str "country"
    ∷ str "city"
    ∷ str "image"
    ∷ str "user_type"
    ∷ str "crossgroup"
    ∷ str "has_webcam"
    ∷ str "fake_checked"
    ∷ str "token"
    ∷ str "is_streaming"
    ∷ str "spoken_language"
    ∷ str "excluded_list"
    ∷ str "invisible"
    ∷ str "avatar"
    ∷ str "app_avatar"
    ∷ str "app_avatar_safe"
    ∷ str "enabled_safe"
    ∷ str "user_agent"
    ∷ str "user_agent_browser"
    ∷ str "user_agent_version"
    ∷ str "user_agent_platform"
    ∷ str "user_agent_language"
    ∷ []

-- The loop over SessionKeys
unfoldable pub populate : Dict Text → List Text → Dict Text → Dict Text
populate stored [] session = session
populate stored (key ∷ keys) session = populate stored keys (elim (lookup key stored) [
  | none ↦ session
  | some value ↦ if value == str "" then session else insert key value session
])

abbrev pub has_token : Option Text → Text → Bool
has_token none token = false
has_token (some stored) token = stored == token

module _ {S : Type 0} ⦃R : Client S⦄ where
  -- AuthRedis.authenticate_and_populate_session: the session, if the token is right.
  unfoldable pub authenticate_and_populate_session : S → Text → Text → Option (Dict Text)
  authenticate_and_populate_session s user_id supplied_token =
      if user_id == str ""
      then none
      else if supplied_token == str ""
      then none
      else (let stored = hgetall (Key.auth user_id) s in
          if has_token (lookup (str "token") stored) supplied_token
          then some (populate stored session_keys [])
          else none)

  -- AuthRedis.update_session_for_key, of a text
  unfoldable pub update_session_for_key : Text → Text → Text → S → S
  update_session_for_key user_id session_key session_value =
      hset (Key.auth user_id) session_key session_value
