-- ===== src/Db/Acls/Stored.antt =====
-- What the acls of dino/db/redis.py read as after they were stored.
use dino.Prelude.{
  ℕ, Bool, true, false, not, ◌&&◌, none, some, List, [], ◌∷◌, if◌then◌else◌, ◌≡◌, refl, sym, arith,
  All, Option-cases, inl, inr,
}
use dino.Prelude.Text.{Text, text_dec, ◌==◌, contains}
use dino.Prelude.Split.{Lacks}
use dino.Prelude.Dict.{Dict, lookup, has}
use dino.Prelude.Result.{Result, ok, err, Result-cases}
use dino.Acl.{Env}
use dino.Acl.Validators.{split_once}
use dino.Acl.Call.{new_acl}
use dino.Redis.{Key, Client, hget, hgetall}
use dino.Db.{Database, Error, invalid_acl_type}
use dino.Db.Roles.{channel_exists, get_channel_name}
use dino.Db.Roles.Calls.{need_channel}
use dino.Db.Acls.{
  all_api_actions, add_acls_in_channel_for_action, get_acls_in_channel_for_action, acl_key,
  store_acls, new_acls, valid_acl, acls_for,
}

-- A text that splits at its first bar is its parts with the bar, and another has no bar.
split_once-parts :
    (s a t : Text) → split_once b'|' s ≡ some (a, t) → (s ≡ acl_key a t) × Lacks b'|' a
unfolding split_once
split_once-parts [] a t h = ground (arith, h)
split_once-parts (c ∷ s) a t h = elim (Option-cases (split_once b'|' s)) [
  | inl missing ↦ ground (arith, h, missing)
  | inr ((b, u), found) ↦ ground (arith, h, found, split_once-parts s b u found)
]

split_once-acl_key : (a t : Text) → Lacks b'|' a → split_once b'|' (acl_key a t) ≡ some (a, t)
unfolding split_once
split_once-acl_key [] t h = ground arith
split_once-acl_key (c ∷ a) t h = ground (arith, split_once-acl_key a t (ground (arith, h)), h)

-- A field is that of an action and a type if it splits into these.
pub acl_key_lem :
    (k action t : Text)
    → Lacks b'|' action
    → (acl_key action t == k)
      ≡ elim (split_once b'|' k) [ none ↦ false | some (a, j) ↦ a == action && t == j ]
acl_key_lem k action t h = elim (Option-cases (split_once b'|' k)) [
  | inl missing ↦ rw missing (ground (arith, split_once-acl_key action t h, missing))
  | inr ((a, j), found) ↦
      rw found
        (ground (arith, split_once-acl_key action t h, found, (split_once-parts k a j found).0))
]

-- Every field of the hash has a bar.
abbrev pub HasBars : Dict Text → Type 0
HasBars d =
    (k v : Text) → lookup k d ≡ some v → (parts : Text × Text) × (split_once b'|' k ≡ some parts)

pub HasBars-tail : (k v : Text) (d : Dict Text) → HasBars ((k, v) ∷ d) → HasBars d
unfolding lookup
HasBars-tail k v d bars j w h = elim (text_dec j k) [
  | yes same ↦ bars j v (ground (arith, same))
  | no other ↦ bars j w (ground (arith, h, other))
]

pub HasBars-cons :
    (k v : Text) (d : Dict Text) {parts : Text × Text}
    → split_once b'|' k ≡ some parts
    → HasBars d
    → HasBars ((k, v) ∷ d)
unfolding lookup
HasBars-cons k v d {parts} bar bars j w h = elim (text_dec j k) [
  | yes same ↦ rw same (parts, bar)
  | no other ↦ bars j w (ground (arith, h, other))
]

-- The acls of an action are read, and each is what its field holds.
pub record Reads (action : Text) (d : Dict Text) : Type 0 where
  pub cleaned : Dict Text
  pub returned : acls_for action d ≡ ok cleaned
  pub same : (t : Text) → lookup t cleaned ≡ lookup (acl_key action t) d

pub first_bar :
    (k v : Text) (d : Dict Text)
    → HasBars ((k, v) ∷ d)
    → (parts : Text × Text) × (split_once b'|' k ≡ some parts)
unfolding lookup
first_bar k v d bars = bars k v (ground arith)

pub acls_for-Reads :
    (action : Text) (d : Dict Text) → Lacks b'|' action → HasBars d → Reads action d
unfolding acls_for lookup
acls_for-Reads action [] h _ = record { cleaned = []; returned = refl; same = λ t. refl }
acls_for-Reads action ((k, v) ∷ d) h bars =
    let rest = acls_for-Reads action d h (HasBars-tail k v d bars) in
    let ((a, j), found) = first_bar k v d bars in
    record {
      cleaned = if a == action then (j, v) ∷ rest.cleaned else rest.cleaned;
      returned = ground (arith, found, rest.returned);
      same = λ t. ground (arith, found, acl_key_lem k action t h, rest.same t);
    }

module _ (available : List Text) (depth : ℕ) (env : Env) where
  -- The fields that are stored for an action.
  record Fields (action : Text) (acls new : Dict Text) : Type 0 where
    bars : HasBars new
    same :
        (a t : Text)
        → Lacks b'|' a
        → lookup (acl_key a t) new ≡ (if a == action then lookup t acls else none)

  stored_first :
      (action t v : Text) (new : Dict Text) (unknown : Bool)
      → (valid : Result Error (Unit {0})) (rest : Result Error (Dict Text))
      → (if unknown then err invalid_acl_type else elim valid [
        | err e ↦ err e
        | ok _ ↦ elim rest [ err e ↦ err e | ok m ↦ ok ((acl_key action t, v) ∷ m) ]
      ])
        ≡ ok new
      → (m : Dict Text) × (rest ≡ ok m) × ((acl_key action t, v) ∷ m ≡ new)
  stored_first action t v new true valid rest returned = cc
  stored_first action t v new false (err e) rest returned = cc
  stored_first action t v new false (ok _) (err e) returned = cc
  stored_first action t v new false (ok _) (ok m) returned = (m, refl, cc)

  new_acls-Fields :
      (action : Text) (acls new : Dict Text)
      → Lacks b'|' action
      → new_acls available depth env action acls ≡ ok new
      → Fields action acls new
  unfolding new_acls lookup
  new_acls-Fields action [] new h returned =
      let same : [] ≡ new = cc in
      rw (sym same) (record { bars = λ k v no. ground (arith, no); same = λ a t k. ground arith })
  new_acls-Fields action ((t, v) ∷ acls) new h returned =
      let (m, rest, whole) =
        stored_first action t v new (not (contains available t))
          (valid_acl (elim (lookup t env.validators) [
            | none ↦ none
            | some w ↦ some (new_acl depth env w v)
          ]))
          (new_acls available depth env action acls) returned in
      let fields = new_acls-Fields action acls m h rest in
      rw (sym whole) (record {
        bars = HasBars-cons (acl_key action t) v m (split_once-acl_key action t h) fields.bars;
        same = λ a j k. ground (
          arith,
          acl_key_lem (acl_key action t) a j k,
          split_once-acl_key action t h,
          fields.same a j k,
        );
      })

contains-All : (P : Text → Type 0) (l : List Text) (x : Text) → All P l → contains l x ≡ true → P x
contains-All P [] x h found = cc
contains-All P (y ∷ l) x (p, h) found = elim (text_dec x y) [
  | yes same ↦ rw same p
  | no other ↦ contains-All P l x h (ground (arith, found, other))
]

plain_actions : All (Lacks b'|') all_api_actions
plain_actions =
    (refl, (refl, (refl, (refl, (refl, (refl, (refl, (refl, (refl, (refl, (refl, tt)))))))))))

-- What a call that stored acls for an action leaves to be read.
abbrev pub Stores : Text → Dict Text → Dict Text → Result Error (Dict Text) → Text → Type 0
Stores action acls old read a =
    (out : Dict Text) × (read ≡ ok out)
    × ((t : Text)
        → lookup t out
          ≡ (if a == action && has t acls then lookup t acls else lookup (acl_key a t) old))

module _ {S : Type 0} ⦃R : Client S⦄ where
  hget-store_acls :
      (c f : Text) (new : Dict Text) (db : Database S)
      → hget (Key.channel_acl c) f (store_acls (Key.channel_acl c) new db).redis
        ≡ elim (lookup f new) [ none ↦ hget (Key.channel_acl c) f db.redis | some v ↦ some v ]
  unfolding lookup
  hget-store_acls c f [] db = refl
  hget-store_acls c f (acl ∷ acls) db =
      ground (arith, R.hmset_law (Key.channel_acl c) (Key.channel_acl c) f (acl ∷ acls) db.redis)

  -- What the hash of a channel reads as after acls were stored.
  lookup-store_acls :
      (c f : Text) (new : Dict Text) (db : Database S)
      → lookup f (hgetall (Key.channel_acl c) (store_acls (Key.channel_acl c) new db).redis)
        ≡ elim (lookup f new) [
          | none ↦ lookup f (hgetall (Key.channel_acl c) db.redis)
          | some v ↦ some v
        ]
  lookup-store_acls c f new db = ground (
    arith,
    R.hgetall_law (Key.channel_acl c) f (store_acls (Key.channel_acl c) new db).redis,
    R.hgetall_law (Key.channel_acl c) f db.redis,
    hget-store_acls c f new db,
  )

  -- A channel is still known after acls were stored.
  get-store_acls :
      (c action : Text) (new : Dict Text) (db : Database S)
      → channel_exists c db ≡ true
      → (get_acls_in_channel_for_action c action (store_acls (Key.channel_acl c) new db)).0
        ≡ acls_for action
            (hgetall (Key.channel_acl c) (store_acls (Key.channel_acl c) new db).redis)
  unfolding get_acls_in_channel_for_action get_channel_name channel_exists
  get-store_acls c action [] db exists = ground (arith, exists)
  get-store_acls c action (acl ∷ acls) db exists =
      ground (arith, exists, R.hmset_law Key.channels (Key.channel_acl c) c (acl ∷ acls) db.redis)

  store_acls-HasBars :
      (c : Text) (new : Dict Text) (db : Database S)
      → HasBars new
      → HasBars (hgetall (Key.channel_acl c) db.redis)
      → HasBars (hgetall (Key.channel_acl c) (store_acls (Key.channel_acl c) new db).redis)
  store_acls-HasBars c new db news bars k v h = elim (Option-cases (lookup k new)) [
    | inl missing ↦ bars k v (ground (arith, h, missing, lookup-store_acls c k new db))
    | inr (w, found) ↦ news k w found
  ]

  module _ (available : List Text) (depth : ℕ) (env : Env) where
    -- An addition that succeeds.
    record Added (channel_id action : Text) (acls : Dict Text) (db : Database S) : Type 0 where
      exists : channel_exists channel_id db ≡ true
      known : contains all_api_actions action ≡ true
      new : Dict Text
      checks : new_acls available depth env action acls ≡ ok new
      state :
          (add_acls_in_channel_for_action available depth env channel_id action acls db).1
          ≡ store_acls (Key.channel_acl channel_id) new db

    add-Added :
        (channel_id action : Text) (acls : Dict Text) (db : Database S)
        → (add_acls_in_channel_for_action available depth env channel_id action acls db).0 ≡ ok tt
        → Added channel_id action acls db
    unfolding add_acls_in_channel_for_action need_channel
    add-Added channel_id action acls db added =
        elim (Result-cases (new_acls available depth env action acls)) [
          | inl (new, checks) ↦ record {
            exists = ground (arith, added);
            known = ground (arith, added);
            new = new;
            checks = checks;
            state = ground (arith, added, checks);
          }
          | inr (e, fails) ↦ ground (arith, added, fails)
        ]

    -- If every field of the hash of a channel has a bar, then after acls were set for an action in
    -- the channel without an exception, those of every action without a bar in its name can be read:
    -- for that action the ones that were set have their new values, and all else reads as it did.
    pub add_acls_in_channel-get :
        (channel_id action a : Text) (acls : Dict Text) (db : Database S)
        → HasBars (hgetall (Key.channel_acl channel_id) db.redis)
        → (add_acls_in_channel_for_action available depth env channel_id action acls db).0 ≡ ok tt
        → Lacks b'|' a
        → Stores action acls
            (hgetall (Key.channel_acl channel_id) db.redis)
            (get_acls_in_channel_for_action channel_id a
              (add_acls_in_channel_for_action available depth env channel_id action acls db).1).0
            a
    add_acls_in_channel-get channel_id action a acls db bars added plain =
        let add = add-Added channel_id action acls db added in
        let stored = store_acls (Key.channel_acl channel_id) add.new db in
        let plain_action =
          contains-All (Lacks b'|') all_api_actions action plain_actions add.known in
        let fields =
          new_acls-Fields available depth env action acls add.new plain_action add.checks in
        let reads =
          acls_for-Reads a (hgetall (Key.channel_acl channel_id) stored.redis) plain
            (store_acls-HasBars channel_id add.new db fields.bars bars) in
        (
          reads.cleaned,
          rw (add.state, get-store_acls channel_id a add.new db add.exists) reads.returned,
          λ t. ground (
            arith,
            reads.same t,
            lookup-store_acls channel_id (acl_key a t) add.new db,
            fields.same a t plain,
          ),
        )
