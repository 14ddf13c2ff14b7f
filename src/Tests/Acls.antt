-- ===== src/Tests/Acls.antt =====
-- Access control at a small configuration.
use dino.Prelude.{true, false, Option, none, some, [], ◌∷◌, ◌≡◌, ◌↔◌, refl, arith}
use dino.Prelude.Text.{Text, text_dec, split, str}
use dino.Prelude.Int.{pos}
use dino.Prelude.Dict.{Dict, lookup}
use dino.Prelude.Result.{ok}
use dino.Generic.{is_digit, parse_int, digits, signed}
use dino.Acl.{granted, range, str_in_csv, Activity, Roles, ActionRules, Env}
use dino.Acl.Validators.{split_once, range_end, call_range, new_range, call_str_in_csv, new_csv}
use dino.Acl.Range.{ReadsAs, InRange, call_range_iff}
use dino.Acl.Action.{or_else, channel_of, validate_acl_for_action}
use dino.Acl.Action.Laws.{Allowed, validate_acl_for_action_iff}
use dino.Redis.{Key, hgetall}
use dino.Redis.Model.{model}
use dino.Acl.Call.{new_acl}
use dino.Db.Roles.{channel_exists, get_channel_name}
use dino.Db.Roles.Calls.{need_channel}
use dino.Db.Acls.{new_acls, add_acls_in_channel_for_action, get_acls_in_channel_for_action}
use dino.Db.Acls.Stored.{HasBars, Stores, HasBars-cons, add_acls_in_channel-get}
use dino.Db.Acls.All.{HasEachOnce, group, get_all_acls_channel, all_acls_channel-action}
use dino.Tests.Roles.{small}

abbrev roles : Roles
roles = record {
  admin = λ c u. false;
  owner_channel = λ c u. false;
  owner = λ r u. false;
  moderator = λ r u. false;
  super_user = λ u. false;
  global_moderator = λ u. false;
  channel_for_room = λ r. ok (str "c");
  room_contains = λ r u. ok true;
}

abbrev one_rule : Text → Text → Option ActionRules
one_rule target action = some (record { acls = str "age" ∷ []; n_rules = 1 })

-- 'ann' is 30, and wants into room 'r', where an age from 18 is set.
abbrev pub env : Env
env = record {
  session = (str "age", str "30") ∷ (str "gender", str "f") ∷ [];
  roles = roles;
  validators = (str "age", range) ∷ (str "gender", str_in_csv (some (str "m" ∷ str "f" ∷ []))) ∷ [];
  actions = one_rule;
}

abbrev pub ann_joins : Activity
ann_joins = record {
  actor_id = str "ann";
  actor_url = none;
  provider_url = none;
  object_url = some (str "c");
  target_id = some (str "r");
  target_object_type = some (str "room");
}

channel_is_c :
    channel_of 5 env ann_joins env.session (str "room") (some (str "r")) none ≡ ok (some (str "c"))
unfolding channel_of text_dec
channel_is_c = refl

validate_acl_for_action_iff_example :
    (validate_acl_for_action 5 env ann_joins env.session
        (str "room")
        (str "join")
        (some ((str "age", str "18:") ∷ []))
        none
        none
      ≡ ok granted)
    ↔ Allowed 5 env ann_joins env.session
        (str "room")
        (str "join")
        (some ((str "age", str "18:") ∷ []))
        (or_else none ann_joins.target_id)
        (some (str "c"))
validate_acl_for_action_iff_example =
    validate_acl_for_action_iff 5 env ann_joins env.session (str "room") (str "join")
      (some ((str "age", str "18:") ∷ [])) none none (some (str "c")) refl channel_is_c

adult : ReadsAs (str "18:") (some (pos 18)) none
unfolding split_once range_end parse_int signed digits
adult = record { left = str "18"; right = []; parts = refl; reads_left = refl; reads_right = refl }

age_in_session : lookup (str "age") env.session ≡ some (str "30")
unfolding lookup text_dec
age_in_session = refl

thirty : parse_int (str "30") ≡ some (pos 30)
unfolding parse_int signed digits
thirty = refl

adult_is_new : new_range (str "18:") ≡ ok tt
unfolding new_range split_once text_dec is_digit
adult_is_new = refl

call_range_iff_example :
    (call_range env (str "age") (str "18:") false ≡ ok granted)
    ↔ InRange (some (pos 18)) none (pos 30)
call_range_iff_example =
    call_range_iff env (str "age") (str "18:") (some (pos 18)) none (str "30") (pos 30) refl adult
      age_in_session refl thirty

gender_in_session : lookup (str "gender") env.session ≡ some (str "f")
unfolding lookup text_dec
gender_in_session = refl

csv_is_new : new_csv (some (str "m" ∷ str "f" ∷ [])) (str "f") ≡ ok tt
unfolding new_csv split text_dec
csv_is_new = refl

f_is_granted : call_str_in_csv env.session (str "gender") (str "f") false ≡ ok granted
unfolding call_str_in_csv split lookup text_dec
f_is_granted = refl

abbrev set_gender : Dict Text
set_gender = (str "gender", str "f") ∷ []

gender_is_added :
    (add_acls_in_channel_for_action
      (str "age" ∷ str "gender" ∷ [])
      5
      env
      (str "c")
      (str "join")
      set_gender
      small).0
    ≡ ok tt
unfolding add_acls_in_channel_for_action need_channel channel_exists new_acls new_acl new_csv split
    lookup text_dec
gender_is_added = refl

small-HasBars : HasBars (hgetall (Key.channel_acl (str "c")) small.redis)
unfolding lookup text_dec split_once
small-HasBars =
    HasBars-cons (str "join|age") (str "18:") [] refl (λ k v missing. ground (arith, missing))

add_acls_in_channel-get_example :
    Stores
      (str "join")
      set_gender
      (hgetall (Key.channel_acl (str "c")) small.redis)
      (get_acls_in_channel_for_action
        (str "c")
        (str "join")
        (add_acls_in_channel_for_action
          (str "age" ∷ str "gender" ∷ [])
          5
          env
          (str "c")
          (str "join")
          set_gender
          small).1).0
      (str "join")
add_acls_in_channel-get_example =
    add_acls_in_channel-get (str "age" ∷ str "gender" ∷ []) 5 env (str "c") (str "join")
      (str "join") set_gender small small-HasBars gender_is_added refl

small-HasEachOnce : HasEachOnce (hgetall (Key.channel_acl (str "c")) small.redis)
unfolding lookup text_dec
small-HasEachOnce = (refl, tt)

c_has_name : (get_channel_name (str "c") small).0 ≡ ok (str "Chat")
unfolding get_channel_name lookup text_dec
c_has_name = refl

all_acls_channel-action_example :
    (all : Dict (Dict Text)) × (cleaned : Dict Text) × ((get_all_acls_channel (str "c") small).0
      ≡ ok all)
    × ((get_acls_in_channel_for_action (str "c") (str "join") small).0 ≡ ok cleaned)
    × ((t : Text) → lookup t (group (str "join") all) ≡ lookup t cleaned)
all_acls_channel-action_example =
    all_acls_channel-action (str "c") (str "join") (str "Chat") small refl small-HasBars
      small-HasEachOnce c_has_name
