-- ===== src/Tests/Storage.antt =====
-- The storage of messages at a small server, whose lists are a function of the room.
use dino.Prelude.{
  suc, ◌+◌, ◌≤◌, true, false, none, some, List, [], ◌∷◌, length, take, ltb, if◌then◌else◌, ◌≡◌,
  refl, arith,
}
use dino.Prelude.Text.{Text, ◌==◌, text_dec, str, join}
use dino.Prelude.Dict.{lookup}
use dino.Prelude.Result.{ok, err}
use dino.Redis.Model.{Server, model}
use dino.Storage.{
  Lists, Settings, Message, remove_first, type_error, clean, up_to, store_message, get_history,
  get_acks_for, update_acks_with_status, mark_as_status, mark_as_received, mark_as_read,
}
use dino.Storage.Bounds.{store_message-bounds}
use dino.Storage.History.{shown, kept, IsStorable, get_history-store_message}
use dino.Storage.Acks.{mark_as_read-received}

abbrev at_room : Text → (List Text → List Text) → (Text → List Text) → Text → List Text
at_room k f s j = if j == k then f (s j) else s j

instance abbrev lists : Lists (Text → List Text)
lists = record {
  lrange_all = λ k s. s k;
  run_lpush = λ k x s. at_room k (λ l. x ∷ l) s;
  run_ltrim = λ k n s. at_room k (take (suc n)) s;
  run_lrem = λ k x s. at_room k (remove_first x) s;
  lpush_law = λ j k x s. refl;
  ltrim_law = λ j k n s. refl;
  lrem_law = λ j k x s. refl;
}

-- Nothing is encoded, and two messages are kept.
abbrev settings : Settings
settings = record { b64e = λ s. s; b64d = λ s. s; is_base64 = λ s. true; max_history = 1 }

abbrev hello : Message
hello = record {
  id = str "m1";
  published = str "t";
  user_id = str "5";
  user_name = str "ann";
  target_id = str "r";
  target_name = str "Room";
  channel_id = str "c";
  channel_name = str "Chat";
  content = str "a,b";
}

abbrev nothing : Text → List Text
nothing room = []

-- The state after `hello`
abbrev stored : Text → List Text
stored =
    lists.run_ltrim (str "r") 1
      (lists.run_lpush (str "r") (str "m1,t,5,ann,Room,c,Chat,a,b") nothing)

hello-stored : store_message settings hello nothing ≡ ok stored
unfolding store_message join
hello-stored = refl

store_message-bounds_example :
    (length (stored (str "r")) ≤ 1 + 1)
    × (length (stored (str "r")) ≡ (if ltb (length (nothing (str "r"))) 1 then 0 + 1 else 1 + 1))
store_message-bounds_example =
    store_message-bounds settings hello nothing stored (ground arith) hello-stored

hello-IsStorable : IsStorable settings hello
hello-IsStorable = (refl, refl, refl, refl, refl, refl, refl, refl, refl, refl)

no_history : get_history settings (str "r") none nothing ≡ ok []
unfolding get_history clean
no_history = refl

get_history-store_message_example :
    get_history settings (str "r") (some 0) stored
    ≡ ok (up_to (some 0) (kept settings (shown hello (str "a,b") ∷ [])))
get_history-store_message_example =
    get_history-store_message settings hello (some 0) nothing stored [] hello-IsStorable no_history
      hello-stored

abbrev server : Server
server = record {
  hashes = λ k. [];
  sets = λ k. [];
  texts = λ k. none;
  bits = λ n. false;
  scores = [];
  ttls = λ k. none;
}

abbrev acked : Server
acked = update_acks_with_status (str "ann") (str "r") 1 (str "m" ∷ []) server

received : mark_as_received (str "m" ∷ []) (str "ann") (str "r") server ≡ ok acked
unfolding mark_as_received mark_as_status get_acks_for lookup
received = refl

mark_as_read-received_example :
    mark_as_read (str "m" ∷ str "n" ∷ []) (str "ann") (str "r") acked ≡ err type_error
unfolding text_dec
mark_as_read-received_example =
    mark_as_read-received (str "m" ∷ []) (str "m" ∷ str "n" ∷ []) (str "ann") (str "r") (str "m")
      server acked received refl refl
