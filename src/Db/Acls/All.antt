-- ===== src/Db/Acls/All.antt =====
-- get_all_acls_channel and get_all_acls_room of dino/db/redis.py: the acls of every action at once.
use dino.Prelude.{Option, none, some, [], ◌∷◌, ◌≡◌, refl, ap, ◌∙◌, if◌then◌else◌, arith, ◌&&◌}
use dino.Prelude.Text.{Text, ◌==◌, text_dec}
use dino.Prelude.Split.{Lacks}
use dino.Prelude.Dict.{Dict, lookup, insert, lookup-insert}
use dino.Prelude.Result.{Result, ok, err}
use dino.Acl.Validators.{split_once}
use dino.Redis.{Key, Client, hgetall}
use dino.Db.{Database, Action, Error, value_error, ◌>>=◌}
use dino.Db.Roles.{get_room_name, get_channel_name, channel_for_room}
use dino.Db.Acls.{acl_key, acls_for, get_acls_in_channel_for_action}
use dino.Db.Acls.Stored.{HasBars, HasBars-tail, first_bar, acl_key_lem, acls_for-Reads}

-- `acls_cleaned[acl_action]`, where there is one
abbrev pub group_of : Option (Dict Text) → Dict Text
group_of none = []
group_of (some types) = types

abbrev pub group : Text → Dict (Dict Text) → Dict Text
group action acls = group_of (lookup action acls)

-- The loop of `get_all_acls_...` over `acls_cleaned`; a field without a bar cannot be unpacked.
unfoldable pub all_acls : Dict Text → Dict (Dict Text) → Result Error (Dict (Dict Text))
all_acls [] cleaned = ok cleaned
all_acls ((acl_key, acl_value) ∷ acls) cleaned = elim (split_once b'|' acl_key) [
  | none ↦ err value_error
  | some (acl_action, acl_type) ↦
      all_acls acls
        (insert acl_action (insert acl_type acl_value (group acl_action cleaned)) cleaned)
]

module _ {S : Type 0} ⦃R : Client S⦄ where
  -- get_all_acls_channel
  unfoldable pub get_all_acls_channel : Text → Action S (Dict (Dict Text))
  get_all_acls_channel channel_id = do
    _ ← get_channel_name channel_id
    λ db. (all_acls (hgetall (Key.channel_acl channel_id) db.redis) [], db)

  -- get_all_acls_room
  unfoldable pub get_all_acls_room : Text → Action S (Dict (Dict Text))
  get_all_acls_room room_id = do
    _ ← get_room_name room_id
    _ ← channel_for_room room_id
    λ db. (all_acls (hgetall (Key.room_acl room_id) db.redis) [], db)

group-insert :
    (action t a j v : Text) (acls : Dict (Dict Text))
    → lookup t (group action (insert a (insert j v (group a acls)) acls))
      ≡ (if a == action && t == j then some v else lookup t (group action acls))
group-insert action t a j v acls =
    ap (λ o. lookup t (group_of o)) (lookup-insert action a (insert j v (group a acls)) acls)
    ∙ elim (text_dec action a) [
      | yes same ↦ ground (arith, same, lookup-insert t j v (group a acls))
      | no other ↦ ground (arith, other)
    ]

-- Every field is there once, as in a hash.
abbrev pub HasEachOnce : Dict Text → Type 0
HasEachOnce [] = Unit {0}
HasEachOnce ((k, _) ∷ d) = (lookup k d ≡ none) × HasEachOnce d

-- The acls of an action, as they were before the loop and with those that it finds.
pub record Grouped (action : Text) (d : Dict Text) (before : Dict (Dict Text)) : Type 0 where
  pub all : Dict (Dict Text)
  pub returned : all_acls d before ≡ ok all
  pub same :
      (t : Text)
      → lookup t (group action all) ≡ elim (lookup (acl_key action t) d) [
        | none ↦ lookup t (group action before)
        | some v ↦ some v
      ]

grouped_first :
    (action t k v a j : Text) (d : Dict Text) (before : Dict (Dict Text))
    → Lacks b'|' action
    → split_once b'|' k ≡ some (a, j)
    → lookup k d ≡ none
    → elim (lookup (acl_key action t) d) [
      | none ↦ lookup t (group action (insert a (insert j v (group a before)) before))
      | some w ↦ some w
    ]
      ≡ elim (lookup (acl_key action t) ((k, v) ∷ d)) [
        | none ↦ lookup t (group action before)
        | some w ↦ some w
      ]
unfolding lookup
grouped_first action t k v a j d before h found first = elim (text_dec (acl_key action t) k) [
  | yes is_first ↦
      ground (
        arith,
        is_first,
        first,
        found,
        acl_key_lem k action t h,
        group-insert action t a j v before,
      )
  | no other ↦
      ground (arith, other, found, acl_key_lem k action t h, group-insert action t a j v before)
]

all_acls-Grouped :
    (action : Text) (d : Dict Text) (before : Dict (Dict Text))
    → Lacks b'|' action
    → HasBars d
    → HasEachOnce d
    → Grouped action d before
unfolding all_acls lookup
all_acls-Grouped action [] before h _ _ = record { all = before; returned = refl; same = λ t. refl }
all_acls-Grouped action ((k, v) ∷ d) before h bars (first, once) =
    let ((a, j), found) = first_bar k v d bars in
    let rest =
      all_acls-Grouped action d (insert a (insert j v (group a before)) before) h
        (HasBars-tail k v d bars) once in
    record {
      all = rest.all;
      returned = ground (arith, found, rest.returned);
      same = λ t. rest.same t ∙ grouped_first action t k v a j d before h found first;
    }

-- What is read of one action, by its own call and among all of them.
record Agree (action : Text) (d : Dict Text) : Type 0 where
  all : Dict (Dict Text)
  cleaned : Dict Text
  returned_all : all_acls d [] ≡ ok all
  returned : acls_for action d ≡ ok cleaned
  same : (t : Text) → lookup t (group action all) ≡ lookup t cleaned

acls-Agree :
    (action : Text) (d : Dict Text) → Lacks b'|' action → HasBars d → HasEachOnce d → Agree action d
unfolding lookup
acls-Agree action d h bars once =
    let a = all_acls-Grouped action d [] h bars once in
    let c = acls_for-Reads action d h bars in
    record {
      all = a.all;
      cleaned = c.cleaned;
      returned_all = a.returned;
      returned = c.returned;
      same = λ t. a.same t ∙ ground (arith, c.same t);
    }

module _ {S : Type 0} ⦃R : Client S⦄ where
  name_keeps_redis :
      (channel_id : Text) (db : Database S) → (get_channel_name channel_id db).1.redis ≡ db.redis
  unfolding get_channel_name
  name_keeps_redis channel_id db = ground arith

  -- If the name of a channel can be read, and every field of its hash of acls has a bar and is
  -- there once, then both the acls of all actions and those of an action without a bar in its name
  -- are returned, and for every type they have the same value for the action, or none.
  pub all_acls_channel-action :
      (channel_id action name : Text) (db : Database S)
      → Lacks b'|' action
      → HasBars (hgetall (Key.channel_acl channel_id) db.redis)
      → HasEachOnce (hgetall (Key.channel_acl channel_id) db.redis)
      → (get_channel_name channel_id db).0 ≡ ok name
      → (all : Dict (Dict Text)) × (cleaned : Dict Text) × ((get_all_acls_channel channel_id db).0
          ≡ ok all)
        × ((get_acls_in_channel_for_action channel_id action db).0 ≡ ok cleaned)
        × ((t : Text) → lookup t (group action all) ≡ lookup t cleaned)
  unfolding get_all_acls_channel get_acls_in_channel_for_action
  all_acls_channel-action channel_id action name db h bars once named =
      let g = acls-Agree action (hgetall (Key.channel_acl channel_id) db.redis) h bars once in
      (
        g.all,
        g.cleaned,
        ground (arith, named, name_keeps_redis channel_id db, g.returned_all),
        ground (arith, named, name_keeps_redis channel_id db, g.returned),
        g.same,
      )
