-- ===== src/Client/Down/Incoming.antt =====
-- media/js/cometd.js: what comes in after a client was disconnected.
use vurs.Prelude.{
  ℕ, String, Bool, true, false, Option, none, some, List, [], ◌∷◌, ◌≡◌, refl, arith, type_error,
}
use vurs.Value.{Value, Object, str, get, truthy, is_undefined}
use vurs.Client.State.{Client, Host}
use vurs.Client.Keeps.{
  Keeps, IsPolite, then-Keeps, with_state-Keeps, if-Keeps, modify-Keeps, return-Keeps, throw-Keeps,
  try-Keeps,
}
use vurs.Client.Keeps.Sending.{lift_world-Keeps}
use vurs.Client.Sending.{cancel_delayed_send}
use vurs.Client.Responses.{handshake_response}
use vurs.Client.Messages.{
  MetaChannel, meta_handshake, meta_connect, meta_disconnect, meta_subscribe, meta_unsubscribe,
  other, meta_channel, notify_value, abort_transport, forget_connection, disconnect_now,
  disconnect_response, disconnect_failure, plain_response, plain_failure, message_response,
  message_failure, dispatch_response, dispatch_failure, take_advice, receive, complete_on, fail_all,
  handle_failure, on_failure,
}
use vurs.Client.Down.{
  IsDown, IsDown-IsBlind, notifies, notifies_failure, handshake_refused-Keeps,
  connect_response-Keeps, connect_failure-Keeps, handshake_failure-Keeps,
}

module _ {W : Type 0} (host : Host W) (polite : IsPolite IsDown host) where
  notify_value-Keeps : (c : Value) (m : Object) → Keeps IsDown (notify_value host c m)
  unfolding notify_value
  notify_value-Keeps (str c) m = notifies host polite c m
  notify_value-Keeps _ m = throw-Keeps type_error

  abort_transport-Keeps : (t : Option ℕ) → Keeps IsDown (abort_transport host t)
  abort_transport-Keeps none = throw-Keeps type_error
  abort_transport-Keeps (some t) = lift_world-Keeps IsDown-IsBlind (host.abort t)

  disconnect_now-Keeps : (abort : Bool) → Keeps IsDown (disconnect_now host abort)
  unfolding disconnect_now cancel_delayed_send forget_connection
  disconnect_now-Keeps abort =
      then-Keeps
        (then-Keeps (modify-Keeps {f = cancel_delayed_send} λ s i. i) (
          with_state-Keeps
            λ s. if-Keeps abort (abort_transport-Keeps s.transport) (return-Keeps tt)))
        (modify-Keeps {f = forget_connection} λ s i. refl)

  disconnect_response-Keeps : (m : Object) → Keeps IsDown (disconnect_response host m)
  unfolding disconnect_response
  disconnect_response-Keeps m =
      if-Keeps (truthy (get "successful" m))
        (then-Keeps (disconnect_now-Keeps false) (notifies host polite "/meta/disconnect" m))
        (then-Keeps (disconnect_now-Keeps true) (notifies_failure host polite "/meta/disconnect" m))

  plain_response-Keeps : (c : String) (m : Object) → Keeps IsDown (plain_response host c m)
  unfolding plain_response
  plain_response-Keeps c m =
      if-Keeps (truthy (get "successful" m)) (notifies host polite c m)
        (notifies_failure host polite c m)

  message_response-Keeps : (m : Object) → Keeps IsDown (message_response host m)
  unfolding message_response
  message_response-Keeps m =
      if-Keeps (is_undefined (get "successful" m))
        (if-Keeps (truthy (get "data" m)) (notify_value-Keeps (get "channel" m) m)
          (return-Keeps tt))
        (plain_response-Keeps "/meta/publish" m)

  dispatch_response-Keeps :
      (c : MetaChannel) (m : Object)
      → (c ≡ meta_handshake → truthy (get "successful" m) ≡ false)
      → Keeps IsDown (dispatch_response host c m)
  unfolding dispatch_response handshake_response
  dispatch_response-Keeps meta_handshake m h = rw (h refl) (handshake_refused-Keeps host polite m)
  dispatch_response-Keeps meta_connect m h = connect_response-Keeps host polite m
  dispatch_response-Keeps meta_disconnect m h = disconnect_response-Keeps m
  dispatch_response-Keeps meta_subscribe m h = plain_response-Keeps "/meta/subscribe" m
  dispatch_response-Keeps meta_unsubscribe m h = plain_response-Keeps "/meta/unsubscribe" m
  dispatch_response-Keeps other m h = message_response-Keeps m

  take_advice-IsDown : (m : Object) (s : Client W) → IsDown s → IsDown (take_advice host m s)
  take_advice-IsDown m s i = ground arith

  -- A client that is disconnected, or waits for the answer to its disconnect, stays so whatever message
  -- comes in but a successful answer to a handshake, and whether or not it is handled without an
  -- exception, where the page's own listeners and extensions do not connect it themselves.
  pub receive-IsDown :
      (m : Object) (s : Client W)
      → (meta_channel (get "channel" m) ≡ meta_handshake → truthy (get "successful" m) ≡ false)
      → IsDown s
      → IsDown (receive host m s).0
  unfolding receive
  receive-IsDown m s h i =
      (then-Keeps (modify-Keeps {f = take_advice host m} (take_advice-IsDown m))
          (dispatch_response-Keeps (meta_channel (get "channel" m)) m h)).run
        s i

  dispatch_failure-Keeps :
      (c : MetaChannel) (xhr : Value) (m : Object) → Keeps IsDown (dispatch_failure host c xhr m)
  unfolding dispatch_failure disconnect_failure plain_failure message_failure
  dispatch_failure-Keeps meta_handshake xhr m = handshake_failure-Keeps host polite xhr m
  dispatch_failure-Keeps meta_connect xhr m = connect_failure-Keeps host polite xhr m
  dispatch_failure-Keeps meta_disconnect xhr m =
      then-Keeps (disconnect_now-Keeps true) (notifies_failure host polite "/meta/disconnect" _)
  dispatch_failure-Keeps meta_subscribe xhr m = notifies_failure host polite "/meta/subscribe" _
  dispatch_failure-Keeps meta_unsubscribe xhr m = notifies_failure host polite "/meta/unsubscribe" _
  dispatch_failure-Keeps other xhr m = notifies_failure host polite "/meta/publish" _

  fail_all-Keeps : (xhr : Value) (ms : List Object) → Keeps IsDown (fail_all host xhr ms)
  unfolding fail_all
  fail_all-Keeps xhr [] = return-Keeps tt
  fail_all-Keeps xhr (m ∷ ms) =
      then-Keeps (dispatch_failure-Keeps (meta_channel (get "channel" m)) xhr m)
        (fail_all-Keeps xhr ms)

  complete_on-Keeps :
      (request : ℕ) (success longpoll : Bool) (t : Option ℕ)
      → Keeps IsDown (complete_on host request success longpoll t)
  complete_on-Keeps request success longpoll none = throw-Keeps type_error
  complete_on-Keeps request success longpoll (some t) = with_state-Keeps λ s.
      lift_world-Keeps IsDown-IsBlind (host.complete t request success longpoll s.settings s.advice)

  -- A client that is disconnected, or waits for the answer to its disconnect, stays so when a request
  -- fails, whatever messages it carried, where the page's own listeners and extensions do not
  -- connect it themselves.
  pub on_failure-IsDown :
      (request : ℕ) (xhr : Value) (ms : List Object) (longpoll : Bool) (s : Client W)
      → IsDown s
      → IsDown (on_failure host request xhr ms longpoll s).0
  unfolding on_failure handle_failure
  on_failure-IsDown request xhr ms longpoll s i =
      (try-Keeps (
          then-Keeps (with_state-Keeps λ t. complete_on-Keeps request false longpoll t.transport)
            (fail_all-Keeps xhr ms))).run
        s i
