-- ===== src/Client/Down.antt =====
-- media/js/cometd.js: the answers to handshakes and connects after a client was disconnected.
pub mod Incoming
pub mod Quiet
use vurs.Prelude.{
  ℕ, String, Bool, true, false, Option, none, some, List, [], ◌∷◌, ◌≡◌, refl, ap, arith, type_error,
  if◌then◌else◌,
}
use vurs.Value.{Value, Object, str, get, truthy, is_undefined, is_str}
use vurs.Client.State.{Client, Host, M, with_state, modify, disconnected, ◌>>◌}
use vurs.Client.Keeps.{
  Keeps, IsPolite, bind-Keeps, then-Keeps, with_state-Keeps, if-Keeps, modify-Keeps, return-Keeps,
  throw-Keeps, try-Keeps, notify_listeners-Keeps,
}
use vurs.Client.Keeps.Sending.{IsBlind, IsBlind-Delivers, lift_world-Keeps, flush_batch-Keeps}
use vurs.Client.Sending.{is_disconnected, cancel_delayed_send, reset_backoff}
use vurs.Client.Connection.{notify_listeners, set_status}
use vurs.Client.Responses.{
  may_retry, retry_handshake, handshake_refused, handshake_response, handshake_failure,
  follow_connect, follow_unsuccessful_connect, follow_connect_failure, connect_action,
  connect_status, connect_accepted, connect_refused, connect_response, connect_failure,
  notify_failed, failure_message,
}
use vurs.Client.Messages.{
  MetaChannel, meta_handshake, meta_connect, meta_disconnect, meta_subscribe, meta_unsubscribe,
  other, meta_channel, notify_value, abort_transport, forget_connection, disconnect_now,
  disconnect_response, disconnect_failure, plain_response, plain_failure, message_response,
  message_failure, dispatch_response, dispatch_failure, take_advice, receive, complete_on, fail_all,
  handle_failure, on_failure,
}

-- The client was disconnected, or waits for the answer to its disconnect.
abbrev pub IsDown : {W : Type 0} → Client W → Type 0
IsDown s = is_disconnected s.status ≡ true

module _ {W : Type 0} where
  pub IsDown-IsBlind : IsBlind (IsDown {W = W})
  IsDown-IsBlind = record {
    world = λ s w i. i;
    message_id = λ s n i. i;
    message_queue = λ s ms i. i;
    batch = λ s n i. i;
  }

  -- A function that reads the state may count on it.
  while-IsDown :
      {A : Type 0} {f : Client W → M W A}
      → ((s : Client W) → IsDown s → Keeps IsDown (f s))
      → Keeps IsDown (with_state f)
  while-IsDown h = record { run = λ s i. (h s i).run s i }

module _ {W : Type 0} (host : Host W) (polite : IsPolite IsDown host) where
  pub notifies : (c : String) (m : Object) → Keeps IsDown (notify_listeners host c m)
  notifies = notify_listeners-Keeps IsDown host polite.listener

  pub notifies_failure : (c : String) (m : Object) → Keeps IsDown (notify_failed host c m)
  notifies_failure c m = then-Keeps (notifies c m) (notifies "/meta/unsuccessful" m)

  pub handshake_refused-Keeps : (m : Object) → Keeps IsDown (handshake_refused host m)
  unfolding handshake_refused retry_handshake set_status
  handshake_refused-Keeps m = while-IsDown λ s i.
      let no_retry : may_retry s ≡ false = rw i refl in
      then-Keeps
        (then-Keeps
          (modify-Keeps {f = λ u. if may_retry s then u else set_status disconnected u}
            λ u j. rw no_retry refl)
          (notifies_failure "/meta/handshake" m))
        (modify-Keeps {f = retry_handshake (may_retry s)} λ u j. rw no_retry j)

  connect_accepted-Keeps : (m : Object) → Keeps IsDown (connect_accepted host (str "none") m)
  unfolding connect_accepted follow_connect set_status reset_backoff
  connect_accepted-Keeps m =
      then-Keeps
        (then-Keeps
          (then-Keeps (modify-Keeps λ s i. i)
            (flush_batch-Keeps host (IsBlind-Delivers IsDown-IsBlind host) polite.outgoing))
          (notifies "/meta/connect" m))
        (modify-Keeps {f = follow_connect (str "none")} λ s i. refl)

  connect_refused-Keeps : (m : Object) → Keeps IsDown (connect_refused host (str "none") m)
  unfolding connect_refused follow_unsuccessful_connect set_status reset_backoff
  connect_refused-Keeps m =
      then-Keeps (notifies_failure "/meta/connect" m)
        (modify-Keeps {f = follow_unsuccessful_connect (str "none")} λ s i. refl)

  connect_followed :
      (action : Value) (m : Object)
      → action ≡ str "none"
      → Keeps IsDown (
          modify (connect_status host action)
          >> (if truthy (get "successful" m)
              then connect_accepted host action m
              else connect_refused host action m))
  connect_followed action m e = rw e (
      then-Keeps (modify-Keeps {f = connect_status host (str "none")} λ u j. rw j j) (
        if-Keeps (truthy (get "successful" m)) (connect_accepted-Keeps m)
          (connect_refused-Keeps m)))

  pub connect_response-Keeps : (m : Object) → Keeps IsDown (connect_response host m)
  unfolding connect_response
  connect_response-Keeps m =
      while-IsDown λ s i. connect_followed (connect_action host s) m (rw i refl)

  pub connect_failure-Keeps : (xhr : Value) (m : Object) → Keeps IsDown (connect_failure host xhr m)
  unfolding connect_failure follow_connect_failure
  connect_failure-Keeps xhr m = with_state-Keeps λ s.
      then-Keeps
        (notifies_failure "/meta/connect"
          (failure_message (str "/meta/connect") xhr m "retry" s.backoff))
        (modify-Keeps {f = follow_connect_failure} λ u j. rw (j) j)

  pub handshake_failure-Keeps :
      (xhr : Value) (m : Object) → Keeps IsDown (handshake_failure host xhr m)
  unfolding handshake_failure
  handshake_failure-Keeps xhr m =
      with_state-Keeps λ s.
        handshake_refused-Keeps (failure_message (str "/meta/handshake") xhr m "retry" s.backoff)
