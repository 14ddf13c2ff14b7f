-- ===== src/Tests/Clocks.antt =====
-- Durations, the cache, heartbeats and the publisher at concrete inputs.
use dino.Prelude.{
  ℕ, leb, ◌-◌, ◌&&◌, not, List, if◌then◌else◌, zero, suc, ◌+◌, ◌*◌, Bool, true, false, none, some,
  [], ◌∷◌, ◌++◌, ◌≡◌, refl, arith,
}
use dino.Prelude.Text.{Text, str, contains}
use dino.Prelude.Dict.{lookup}
use dino.Prelude.Result.{ok, err}
use dino.Generic.{isdigit, is_digit}
use dino.Generic.Decimal.{show}
use dino.Duration.{
  ban_duration_to_datetime, validate_duration, unit_seconds, last_second, overflow_error,
}
use dino.Duration.Laws.{ban_duration_to_datetime-show}
use dino.Cache.Memory.{set, get, cleanup}
use dino.Cache.Memory.Laws.{cleanup-drops_live}
use dino.Heartbeat.{Manager, Config, is_expired, round}
use dino.Heartbeat.Laws.{calmly, always, round-settles}
use dino.Publisher.{
  topic_msg_hash, recently_sent_has, publish_loop, update_recently_sent, publish, init_publisher,
}
use dino.Publisher.Window.{IsWindow}
use dino.Publisher.Laws.{Call, publish_all, publish-once}

ban_duration_to_datetime-show_example :
    ban_duration_to_datetime 1000 (some (show 5 ++ b'm' ∷ [])) ≡ (
      if leb (1000 + unit_seconds b'm' * 5) last_second
      then ok (1000 + unit_seconds b'm' * 5)
      else err overflow_error)
ban_duration_to_datetime-show_example = ban_duration_to_datetime-show 1000 5 b'm' refl

five_minutes_is_valid : validate_duration (some (str "5m")) ≡ ok tt
unfolding validate_duration is_digit isdigit
five_minutes_is_valid = refl

one_is_digit : isdigit (str "1") ≡ true
unfolding isdigit
one_is_digit = refl

abbrev seven : ℕ
seven = 7

cleanup-drops_live_example :
    ((get 110 (str "k") (set 100 (str "k") seven 30 [])).0 ≡ some seven)
    × ((get 110 (str "k") (cleanup 110 (set 100 (str "k") seven 30 []))).0 ≡ none)
cleanup-drops_live_example =
    cleanup-drops_live 100 110 30 (str "k") seven [] (omega arith) (omega arith) (omega arith)

-- 'ann' was heard at 100, 'bob' at 10.
abbrev two_users : Manager
two_users = record {
  to_check = (str "ann", 100) ∷ (str "bob", 10) ∷ [];
  connected_user_ids = (str "bob", str "hb-bob") ∷ [];
  disconnected = [];
}

abbrev config : Config
config = record { expire_second = 20; testing = false }

abbrev nobody : Text → Bool
nobody u = false

round-settles_example :
    (gone : List Text) × ((round config 105 (calmly nobody) always two_users).disconnected
      ≡ two_users.disconnected ++ gone)
    × ((u : Text)
        → contains gone u ≡ (
            is_expired (105 - config.expire_second) (lookup u two_users.to_check)
            && not (nobody u)))
    × ((u : Text)
        → lookup u (round config 105 (calmly nobody) always two_users).to_check ≡ (
            if is_expired (105 - config.expire_second) (lookup u two_users.to_check)
            then (if nobody u then some 105 else none)
            else lookup u two_users.to_check))
round-settles_example = round-settles config 105 nobody two_users

-- The second try reaches the queue.
abbrev second_try : ℕ → Bool
second_try (suc zero) = true
second_try _ = false

init_publisher-IsWindow : IsWindow init_publisher
init_publisher-IsWindow = record { same = λ x. refl; distinct = tt; small = omega arith }

abbrev other_call : Call
other_call = record { reaches = second_try; topic = some (str "t"); msg_id = str "other" }

delivered_once : (publish second_try none (str "id") init_publisher).delivered ≡ 1
unfolding publish recently_sent_has publish_loop update_recently_sent topic_msg_hash
delivered_once = refl

publish-once_example :
    (publish second_try none (str "id") (
      publish_all
        (other_call ∷ [])
        (publish second_try none (str "id") init_publisher).publisher)).delivered
    ≡ 0
publish-once_example =
    publish-once second_try second_try none (str "id") (other_call ∷ []) init_publisher
      init_publisher-IsWindow (omega arith) delivered_once
