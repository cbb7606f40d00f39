-- ===== src/Client/Keeps/Messages.antt =====
-- media/js/cometd.js: every response, every failure and every timeout keeps an invariant that the
-- steps of a client keep.
use vurs.Prelude.{
  ℕ, String, Bool, true, false, Option, none, some, List, [], ◌∷◌, Outcome, type_error,
}
use vurs.Value.{Value, Object, str, get, truthy, is_undefined}
use vurs.Client.State.{Client, Host, Task}
use vurs.Client.Keeps.{
  Keeps, IsPolite, bind-Keeps, then-Keeps, with_state-Keeps, if-Keeps, modify-Keeps, return-Keeps,
  throw-Keeps, outcome-Keeps, try-Keeps, notify_listeners-Keeps, apply_from-Keeps,
}
use vurs.Client.Keeps.Sending.{world-Keeps}
use vurs.Client.Keeps.Steps.{Respects}
use vurs.Client.Keeps.Connection.{
  notify_failed-Keeps, handshake_response-Keeps, handshake_failure-Keeps, connect_response-Keeps,
  connect_failure-Keeps, run_task-Keeps,
}
use vurs.Client.Extensions.{in_turn, apply_incoming_extensions}
use vurs.Client.Sending.{cancel_delayed_send}
use vurs.Client.Connection.{notify_listeners}
use vurs.Client.Responses.{failure_message, notify_failed}
use vurs.Client.Messages.{
  MetaChannel, meta_handshake, meta_connect, meta_disconnect, meta_subscribe, meta_unsubscribe,
  other, meta_channel, convert_to_messages, notify_value, abort_transport, forget_connection,
  disconnect_now, disconnect_response, disconnect_failure, plain_response, plain_failure,
  message_response, message_failure, dispatch_response, dispatch_failure, take_advice, receive,
  receive_if, receive_all, complete_on, handle_response, fail_all, handle_failure, on_success,
  on_failure,
}
use vurs.Client.Api.{find_timer, fire, forget_timer, run_found}

module _ {W : Type 0} {I : Client W → Type 0} (host : Host W) (steps : Respects I host)
    (polite : IsPolite I host) where
  notifies : (c : String) (m : Object) → Keeps I (notify_listeners host c m)
  notifies = notify_listeners-Keeps I host polite.listener

  notifies_failure : (c : String) (m : Object) → Keeps I (notify_failed host c m)
  notifies_failure = notify_failed-Keeps host steps polite

  notify_value-Keeps : (c : Value) (m : Object) → Keeps I (notify_value host c m)
  unfolding notify_value
  notify_value-Keeps (str c) m = notifies c m
  notify_value-Keeps _ m = throw-Keeps type_error

  abort_transport-Keeps : (t : Option ℕ) → Keeps I (abort_transport host t)
  abort_transport-Keeps none = throw-Keeps type_error
  abort_transport-Keeps (some t) = world-Keeps (host.abort t) (steps.aborted t)

  disconnect_now-Keeps : (abort : Bool) → Keeps I (disconnect_now host abort)
  unfolding disconnect_now
  disconnect_now-Keeps abort =
      then-Keeps
        (then-Keeps (modify-Keeps {f = cancel_delayed_send} steps.cancel_delayed_send) (
          with_state-Keeps
            λ s. if-Keeps abort (abort_transport-Keeps s.transport) (return-Keeps tt)))
        (modify-Keeps {f = forget_connection} steps.forget_connection)

  disconnect_response-Keeps : (m : Object) → Keeps I (disconnect_response host m)
  unfolding disconnect_response
  disconnect_response-Keeps m =
      if-Keeps (truthy (get "successful" m))
        (then-Keeps (disconnect_now-Keeps false) (notifies "/meta/disconnect" m))
        (then-Keeps (disconnect_now-Keeps true) (notifies_failure "/meta/disconnect" m))

  plain_response-Keeps : (c : String) (m : Object) → Keeps I (plain_response host c m)
  unfolding plain_response
  plain_response-Keeps c m =
      if-Keeps (truthy (get "successful" m)) (notifies c m) (notifies_failure c m)

  message_response-Keeps : (m : Object) → Keeps I (message_response host m)
  unfolding message_response
  message_response-Keeps m =
      if-Keeps (is_undefined (get "successful" m))
        (if-Keeps (truthy (get "data" m)) (notify_value-Keeps (get "channel" m) m)
          (return-Keeps tt))
        (plain_response-Keeps "/meta/publish" m)

  dispatch_response-Keeps : (c : MetaChannel) (m : Object) → Keeps I (dispatch_response host c m)
  unfolding dispatch_response
  dispatch_response-Keeps meta_handshake m = handshake_response-Keeps host steps polite m
  dispatch_response-Keeps meta_connect m = connect_response-Keeps host steps polite m
  dispatch_response-Keeps meta_disconnect m = disconnect_response-Keeps m
  dispatch_response-Keeps meta_subscribe m = plain_response-Keeps "/meta/subscribe" m
  dispatch_response-Keeps meta_unsubscribe m = plain_response-Keeps "/meta/unsubscribe" m
  dispatch_response-Keeps other m = message_response-Keeps m

  dispatch_failure-Keeps :
      (c : MetaChannel) (xhr : Value) (m : Object) → Keeps I (dispatch_failure host c xhr m)
  unfolding dispatch_failure disconnect_failure plain_failure message_failure
  dispatch_failure-Keeps meta_handshake xhr m = handshake_failure-Keeps host steps polite xhr m
  dispatch_failure-Keeps meta_connect xhr m = connect_failure-Keeps host steps polite xhr m
  dispatch_failure-Keeps meta_disconnect xhr m = then-Keeps (disconnect_now-Keeps true) (
      notifies_failure "/meta/disconnect" (failure_message (str "/meta/disconnect") xhr m "none" 0))
  dispatch_failure-Keeps meta_subscribe xhr m = notifies_failure "/meta/subscribe" _
  dispatch_failure-Keeps meta_unsubscribe xhr m = notifies_failure "/meta/unsubscribe" _
  dispatch_failure-Keeps other xhr m = notifies_failure "/meta/publish" _

  pub receive-Keeps : (m : Object) → Keeps I (receive host m)
  unfolding receive
  receive-Keeps m =
      then-Keeps (modify-Keeps {f = take_advice host m} (steps.take_advice m))
        (dispatch_response-Keeps (meta_channel (get "channel" m)) m)

  receive_if-Keeps : (m : Option Object) → Keeps I (receive_if host m)
  unfolding receive_if
  receive_if-Keeps none = return-Keeps tt
  receive_if-Keeps (some m) = receive-Keeps m

  receive_all-Keeps : (ms : List Object) → Keeps I (receive_all host ms)
  unfolding receive_all apply_incoming_extensions
  receive_all-Keeps [] = return-Keeps tt
  receive_all-Keeps (m ∷ ms) =
      then-Keeps
        (bind-Keeps
          (with_state-Keeps λ s.
            apply_from-Keeps I host.incoming polite.incoming (in_turn s.reverse_incoming_extensions)
              host.rounds 0 (some m))
          receive_if-Keeps)
        (receive_all-Keeps ms)

  complete_on-Keeps :
      (request : ℕ) (success longpoll : Bool) (t : Option ℕ)
      → Keeps I (complete_on host request success longpoll t)
  complete_on-Keeps request success longpoll none = throw-Keeps type_error
  complete_on-Keeps request success longpoll (some t) = record {
    run = steps.completed t request success longpoll;
  }

  fail_all-Keeps : (xhr : Value) (ms : List Object) → Keeps I (fail_all host xhr ms)
  unfolding fail_all
  fail_all-Keeps xhr [] = return-Keeps tt
  fail_all-Keeps xhr (m ∷ ms) =
      then-Keeps (dispatch_failure-Keeps (meta_channel (get "channel" m)) xhr m)
        (fail_all-Keeps xhr ms)

  pub on_success-Keeps :
      (parse : String → Outcome Value) (request : ℕ) (response : Value) (longpoll : Bool)
      → Keeps I (on_success host parse request response longpoll)
  unfolding on_success handle_response
  on_success-Keeps parse request response longpoll = try-Keeps (
      bind-Keeps (outcome-Keeps (convert_to_messages parse response)) λ ms.
        then-Keeps (with_state-Keeps λ s. complete_on-Keeps request true longpoll s.transport)
          (receive_all-Keeps ms))

  pub on_failure-Keeps :
      (request : ℕ) (xhr : Value) (ms : List Object) (longpoll : Bool)
      → Keeps I (on_failure host request xhr ms longpoll)
  unfolding on_failure handle_failure
  on_failure-Keeps request xhr ms longpoll = try-Keeps (
      then-Keeps (with_state-Keeps λ s. complete_on-Keeps request false longpoll s.transport)
        (fail_all-Keeps xhr ms))

  run_found-Keeps : (t : Option Task) → Keeps I (run_found host t)
  unfolding run_found
  run_found-Keeps none = return-Keeps tt
  run_found-Keeps (some task) = try-Keeps (run_task-Keeps host steps polite task)

  pub fire-Keeps : (id : ℕ) → Keeps I (fire host id)
  unfolding fire forget_timer
  fire-Keeps id = with_state-Keeps λ s.
      then-Keeps (modify-Keeps {f = forget_timer id} (steps.forget_timer id))
        (run_found-Keeps (find_timer id s.timers))
