-- ===== src/Tests/Presence.antt =====
-- The changes of status at a small node.
use dino.Prelude.{
  ℕ, Bool, true, false, Option, none, some, [], if◌then◌else◌, ◌≡◌, refl, sym, ◌∙◌, arith,
}
use dino.Prelude.Text.{Text, ◌==◌, text_dec, str}
use dino.Prelude.Dict.{lookup}
use dino.Prelude.Result.{ok, err}
use dino.Cache.Memory.{get}
use dino.Cache.Redis.{text}
use dino.Cache.Redis.Status.{get_user_status, status_available}
use dino.Presence.Hooks.{set_away, set_back}
use dino.Presence.Away.{away-back}
use dino.Generic.Decimal.{show}
use dino.Redis.Model.{Server, model}
use dino.Prelude.Int.{ℤ, pos}
use dino.Redis.Commands.{commands}
use dino.Presence.{Node, Env, status_of_user, remove_from_multicast_on_disconnect}
use dino.Presence.Changes as Changes
use dino.Presence.Refused.{refused-keeps_bit}
use dino.Presence.Changes.{value_error, response_error}
use dino.Presence.Users.{
  Commits, done, conflict, failure, set_user_online, set_user_offline, set_user_invisible,
}
use dino.Presence.Seen.{seen}
use dino.Presence.Standing.{Change, after, standing}
use dino.Presence.Effects.{changed, changes-refine}
use dino.Presence.Reach.{IsAgreed, Reach, Reach-IsAgreed, online, asked, offline, here, next}
use dino.Presence.Laws.{announced, no_number-unchanged, offline-announces_now}

abbrev digit : Text → Option ℤ
digit x = if x == str "5" then some (pos 5) else if x == str "9" then some (pos 9) else none

abbrev env : Env
env = record { int_float = digit; has_status_topic = true; now = 9; trims = true }

abbrev empty : Node Server
empty = record {
  store = record {
    redis = record {
      hashes = λ k. [];
      sets = λ k. [];
      texts = λ k. none;
      bits = λ n. false;
      scores = [];
      ttls = λ k. none;
    };
    cache = [];
  };
  status_rows = [];
  last_online_rows = [];
  published = [];
}

abbrev commits : Commits
commits = record { of_last_online = failure; first = conflict; second = done }

digit_5 : digit (str "5") ≡ some (pos 5)
unfolding text_dec
digit_5 = refl

changes-refine_example :
    (standing 5 (str "5") (seen (set_user_online env commits (str "5") true empty).1)
      ≡ changed Change.to_online (str "5") (str "5") (standing 5 (str "5") (seen empty)))
    × (standing 5 (str "5") (seen (set_user_offline env commits (str "5") empty).1)
        ≡ changed Change.to_offline (str "5") (str "5") (standing 5 (str "5") (seen empty)))
    × (standing 5 (str "5") (seen (set_user_invisible env commits (str "5") false empty).1) ≡ (
        changed
          (if false then Change.to_hidden_offline else Change.to_hidden)
          (str "5")
          (str "5")
          (standing 5 (str "5") (seen empty))))
    × (standing 5 (str "5") (seen (Changes.set_user_away env (str "5") empty))
        ≡ changed Change.to_away (str "5") (str "5") (standing 5 (str "5") (seen empty)))
    × (standing 5 (str "5") (seen (remove_from_multicast_on_disconnect env (str "5") empty))
        ≡ changed Change.out_of_multicast (str "5") (str "5") (standing 5 (str "5") (seen empty)))
unfolding text_dec
changes-refine_example =
    changes-refine env commits 5 (str "5") (str "5") 5 refl digit_5 refl refl empty true false

no_number-unchanged_example :
    (Changes.set_user_online env (str "ann") empty ≡ empty)
    × (Changes.set_user_invisible env (str "ann") true empty ≡ empty)
    × (Changes.set_user_offline env (str "ann") empty ≡ (err value_error, empty))
unfolding text_dec
no_number-unchanged_example = no_number-unchanged env (str "ann") true empty refl

offline-announces_now_example :
    announced (Changes.set_user_offline env (str "5") empty).1.published ≡ some (some (pos 9))
unfolding text_dec show
offline-announces_now_example = offline-announces_now env (str "5") (pos 5) empty digit_5 refl refl

abbrev is_five : Text → Bool
is_five u = u == str "5"

abbrev number : Text → ℕ
number u = 5

is_five_sound : (u : Text) → is_five u ≡ true → u ≡ str "5"
is_five_sound u h = ground (arith, h)

apart : (u v : Text) → is_five u ≡ true → is_five v ≡ true → number u ≡ number v → u ≡ v
apart u v hu hv e = is_five_sound u hu ∙ sym (is_five_sound v hv)

empty-IsAgreed : IsAgreed is_five number empty
unfolding text_dec lookup
empty-IsAgreed u is_u = refl

five_is : is_five (str "5") ≡ true
unfolding text_dec
five_is = refl

abbrev online_node : Node Server
online_node = (set_user_online env commits (str "5") true empty).1

run :
    Reach is_five number empty
      (set_user_offline env commits (str "5") (status_of_user env (str "5") online_node).1).1
run =
    next
      (next (next here (online env commits (str "5") true empty (five_is, digit_5, refl, refl)))
        (asked env (str "5") online_node (five_is, digit_5, refl, refl)))
      (offline env commits (str "5") (status_of_user env (str "5") online_node).1
        (five_is, digit_5, refl, refl))

Reach-IsAgreed_example :
    IsAgreed is_five number
      (set_user_offline env commits (str "5") (status_of_user env (str "5") online_node).1).1
Reach-IsAgreed_example = Reach-IsAgreed is_five number apart empty-IsAgreed run

-- A node that knows the status of everybody, which is that of the available.
abbrev available_node : Node Server
available_node = record empty {
  store = record {
    redis = record (empty.store.redis) { texts = λ k. some status_available };
    cache = [];
  };
}

available : (status_of_user env (str "5") available_node).0 ≡ text status_available
unfolding status_of_user get_user_status get lookup
available = refl

abbrev gone : Node Server
gone = Changes.set_user_away env (str "5") (status_of_user env (str "5") available_node).1

goes_away : set_away env commits (str "5") available_node ≡ (ok true, gone)
unfolding set_away status_of_user get_user_status get lookup text_dec
goes_away = refl

away-back_example :
    ((set_away env commits (str "5") gone).0 ≡ ok false)
    × ((set_back env commits (str "5") gone).0 ≡ ok true)
    × (standing 5 (str "5") (seen (set_back env commits (str "5") gone).1)
        ≡ changed Change.to_online (str "5") (str "5") (standing 5 (str "5") (seen gone)))
unfolding text_dec
away-back_example =
    away-back env env commits 5 5 (str "5") (str "5") available_node gone refl digit_5 refl refl
      available goes_away

-- The number of everybody is too large for a bit.
abbrev large : Env
large = record {
  int_float = λ x. some (pos 4294967296);
  has_status_topic = true;
  now = 9;
  trims = true;
}

refused-keeps_bit_example :
    (standing 5 (str "5") (seen (Changes.set_user_online large (str "5") empty))
      ≡ record (after Change.to_online (standing 5 (str "5") (seen empty))) { bit = false })
    × ((Changes.set_user_online large (str "5") empty).published ≡ [])
    × ((Changes.set_user_offline large (str "5") empty).0 ≡ err response_error)
refused-keeps_bit_example =
    refused-keeps_bit large (str "5") (pos 4294967296) refl 5 empty refl refl
