-- ===== src/Db.antt =====
-- DatabaseRedis of dino/db/redis.py as actions on a database: the state of the Redis server, and
-- what the cache answers at the moment. A Python set is the list of its elements, in the order in
-- which they came.
pub mod RoleKeys
pub mod Roles
pub mod Rooms
pub mod Bans
pub mod Acls
pub mod Users
pub mod Authority
use dino.Prelude.{Bool, true, false, Option, none, some, if◌then◌else◌}
use dino.Prelude.Text.{Text}
use dino.Prelude.Dict.{Dict}
use dino.Prelude.Result.{Result, ok, err}
use dino.Acl.{Exception}

pub data Error : Type 0 where
  no_such_channel no_such_room no_channel_found no_such_user : Error
  channel_exists_already empty_channel_name channel_name_exists_already : Error
  room_exists_already empty_room_name room_name_exists_already : Error
  empty_user_name empty_user_id user_exists_already : Error
  invalid_api_action invalid_acl_type value_error index_error : Error
  -- the ResponseError of the client of Redis
  response_error : Error
  -- what `validate_new_acl` raised
  acl_exception : Exception → Error

pub record Database (S : Type 0) : Type 0 where
  pub redis : S
  pub cached_channel_name : Dict Text
  pub cached_channel_for_room : Dict Text
  pub cached_channel_exists : Dict Text

-- A call: what was written before an exception stays written.
abbrev pub Action {ℓ} : Type 0 → Type ℓ → Type ℓ
Action S A = Database S → Result Error A × Database S

module _ {ℓ} {S : Type 0} {A : Type ℓ} where
  abbrev pub pure : A → Action S A
  pure a db = (ok a, db)

  abbrev pub raise : Error → Action S A
  raise e db = (err e, db)

  abbrev pub gets : (Database S → A) → Action S A
  gets f db = (ok (f db), db)

  -- A command of Redis that only reads.
  abbrev pub reads : (S → A) → Action S A
  reads f db = (ok (f db.redis), db)

  abbrev pub or_raise : Option A → Error → Action S A
  or_raise none e = raise e
  or_raise (some a) e = pure a

infixl 5 ◌>>=◌ ◌>>◌
abbrev pub ◌>>=◌ {ℓ κ} :
    {S : Type 0} {A : Type ℓ} {B : Type κ} → Action S A → (A → Action S B) → Action S B
◌>>=◌ m f db = let (r, db') = m db in elim r [ ok a ↦ f a db' | err e ↦ raise e db' ]

abbrev pub ◌>>◌ {ℓ κ} :
    {S : Type 0} {A : Type ℓ} {B : Type κ} → Action S A → Action S B → Action S B
m >> k = m >>= λ _. k

module _ {S : Type 0} where
  abbrev pub raise_if : Bool → Error → Action S (Unit {0})
  raise_if c e db = (if c then err e else ok tt, db)

  abbrev pub modify : (Database S → Database S) → Action S (Unit {0})
  modify f db = (ok tt, f db)

  -- A command of Redis that writes.
  abbrev pub writes : (S → S) → Action S (Unit {0})
  writes f db = (ok tt, record db { redis = f db.redis })
