-- ===== src/Request/Rooms/Guards.antt =====
-- What on_create, on_history and on_list_rooms of dino/validation/request.py let through.
use dino.Prelude.{ℕ, true, false, not, ◌&&◌, none, some, ◌≡◌, ◌↔◌, arith, Option-cases, inl, inr}
use dino.Prelude.Text.{Text, str, is_blank}
use dino.Prelude.Result.{ok}
use dino.Acl.{Activity, Env}
use dino.Request.{valid}
use dino.Request.Rooms.{Lookups, allows, as_room, on_create, on_history}
use dino.Request.Rooms.Join.{admits, permitted_iff}

module _ (depth : ℕ) (env : Env) (u : Lookups) (act : Activity) where
  -- A room is created exactly if its channel is known by its name and exists, the name is given, not
  -- blank, in base64, and decodes to one that is neither restricted nor taken in the channel, and
  -- the acls of the channel let the activity, of type room if it has none, create it.
  pub on_create_iff :
      (channel_id name : Text)
      → act.object_url ≡ some channel_id
      → (on_create depth env u act (some name) ≡ ok valid) ↔ (
          (u.has_channel_name channel_id
            && not (is_blank name)
            && u.is_base64 name
            && u.channel_exists channel_id
            && not (u.room_name_restricted (u.b64d name))
            && not (u.room_name_exists channel_id (u.b64d name))
            && admits (
                allows depth env u
                  (as_room depth env u act)
                  (str "channel")
                  (str "create")
                  (u.channel_acls channel_id (str "create"))))
          ≡ true)
  unfolding on_create
  on_create_iff channel_id name url = ground (
    arith,
    url,
    permitted_iff
        (allows depth env u (as_room depth env u act) (str "channel") (str "create")
          (u.channel_acls channel_id (str "create")))
        (ok valid),
  )

  -- The history of a room is given out exactly if the request names a room, by an id that is not
  -- blank, whose acls for that are found and let the activity in.
  pub on_history_iff :
      (room_id : Text)
      → act.target_id ≡ some room_id
      → (on_history depth env u act ≡ ok valid) ↔ (
          (not (is_blank room_id) && elim (u.room_acls room_id (str "history")) [
            | none ↦ false
            | some acls ↦ admits (allows depth env u act (str "room") (str "history") acls)
          ])
          ≡ true)
  unfolding on_history
  on_history_iff room_id target = elim (Option-cases (u.room_acls room_id (str "history"))) [
    | inl nothing ↦ ground (arith, target, nothing)
    | inr (acls, set) ↦ ground (
      arith,
      target,
      set,
      permitted_iff (allows depth env u act (str "room") (str "history") acls) (ok valid),
    )
  ]
