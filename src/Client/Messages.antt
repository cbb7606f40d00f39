-- ===== src/Client/Messages.antt =====
-- media/js/cometd.js: the responses and failures that only notify listeners, disconnection, and the
-- entry points of a transport, `_handleResponse` and `_handleFailure`.
use vurs.Prelude.{
  ℕ, String, Bool, true, false, Option, none, some, List, [], ◌∷◌, if◌then◌else◌, Outcome, ok,
  thrown, unfinished, type_error, message,
}
use vurs.Prelude.Int.{pos}
use vurs.Value.{
  Value, Items, nil, item, Object, undefined, null, str, arr, obj, end, get, truthy, is_undefined,
  is_str,
}
use vurs.Client.State.{
  Client, disconnected, Host, M, return, throw, modify, with_state, lift_world, try, ◌>>=◌, ◌>>◌,
}
use vurs.Client.Sending.{cancel_delayed_send}
use vurs.Client.Extensions.{apply_incoming_extensions}
use vurs.Client.Connection.{lift_outcome, notify_listeners}
use vurs.Client.Responses.{
  failure_message, notify_failed, handshake_response, handshake_failure, connect_response,
  connect_failure,
}

-- Which branch of the switch on the channel a message takes.
pub data MetaChannel : Type 0 where
  meta_handshake meta_connect meta_disconnect meta_subscribe meta_unsubscribe other : MetaChannel

unfoldable pub meta_channel : Value → MetaChannel
meta_channel c =
    if is_str "/meta/handshake" c
    then meta_handshake
    else if is_str "/meta/connect" c
    then meta_connect
    else if is_str "/meta/disconnect" c
    then meta_disconnect
    else if is_str "/meta/subscribe" c
    then meta_subscribe
    else if is_str "/meta/unsubscribe" c
    then meta_unsubscribe
    else other

-- The messages of a response that is an array, as `_convertToMessages` returns it. What is no object
-- has no properties.
unfoldable pub objects : Items → List Object
objects nil = []
objects (item (obj o) xs) = o ∷ objects xs
objects (item _ xs) = end ∷ objects xs

-- What the caller's loop reads of a text's value: what is no array has no messages in it.
unfoldable pub parsed_messages : Outcome Value → Outcome (List Object)
unfolding objects
parsed_messages (ok (arr xs)) = ok (objects xs)
parsed_messages (ok _) = ok []
parsed_messages (thrown e) = thrown e
parsed_messages unfinished = unfinished

-- `_convertToMessages`: `parse` is org.cometd.JSON.fromJSON.
unfoldable pub convert_to_messages : (String → Outcome Value) → Value → Outcome (List Object)
unfolding objects parsed_messages
convert_to_messages parse undefined = ok []
convert_to_messages parse (str s) = parsed_messages (parse s)
convert_to_messages parse null = ok []
convert_to_messages parse (arr xs) = ok (objects xs)
convert_to_messages parse (obj o) = ok (o ∷ [])
convert_to_messages parse _ = thrown (message "Conversion Error")

-- The end of `_disconnect`.
unfoldable pub forget_connection : {W : Type 0} → Client W → Client W
forget_connection s = record s {
  client_id = null;
  status = disconnected;
  batch = pos 0;
  message_queue = [];
  backoff = 0;
}

module _ {W : Type 0} (host : Host W) where
  -- `channel.split` fails on what is no string.
  unfoldable pub notify_value : Value → Object → M W (Unit {0})
  unfolding notify_listeners
  notify_value (str c) m = notify_listeners host c m
  notify_value c m = throw type_error

  abbrev pub abort_transport : Option ℕ → M W (Unit {0})
  abort_transport none = throw type_error
  abort_transport (some t) = lift_world (host.abort t)

  -- `_disconnect`
  unfoldable pub disconnect_now : Bool → M W (Unit {0})
  unfolding cancel_delayed_send forget_connection
  disconnect_now abort =
      modify cancel_delayed_send
      >> with_state (λ s. if abort then abort_transport s.transport else return tt)
      >> modify forget_connection

  unfoldable pub disconnect_response : Object → M W (Unit {0})
  unfolding disconnect_now
  disconnect_response m =
      if truthy (get "successful" m)
      then disconnect_now false >> notify_listeners host "/meta/disconnect" m
      else disconnect_now true >> notify_failed host "/meta/disconnect" m

  unfoldable pub disconnect_failure : Value → Object → M W (Unit {0})
  unfolding disconnect_now
  disconnect_failure xhr m =
      disconnect_now true
      >> notify_failed host "/meta/disconnect"
          (failure_message (str "/meta/disconnect") xhr m "none" 0)

  -- `_subscribeResponse` and `_unsubscribeResponse`, and the end of `_messageResponse`.
  unfoldable pub plain_response : String → Object → M W (Unit {0})
  unfolding notify_listeners
  plain_response channel m =
      if truthy (get "successful" m)
      then notify_listeners host channel m
      else notify_failed host channel m

  -- `_subscribeFailure` and `_unsubscribeFailure`.
  unfoldable pub plain_failure : String → Value → Object → M W (Unit {0})
  plain_failure channel xhr m =
      notify_failed host channel (failure_message (str channel) xhr m "none" 0)

  unfoldable pub message_response : Object → M W (Unit {0})
  unfolding plain_response notify_value
  message_response m =
      if is_undefined (get "successful" m)
      then (if truthy (get "data" m) then notify_value (get "channel" m) m else return tt)
      else plain_response "/meta/publish" m

  unfoldable pub message_failure : Value → Object → M W (Unit {0})
  message_failure xhr m =
      notify_failed host "/meta/publish" (failure_message (get "channel" m) xhr m "none" 0)

  unfoldable pub dispatch_response : MetaChannel → Object → M W (Unit {0})
  unfolding handshake_response connect_response disconnect_response plain_response message_response
  dispatch_response meta_handshake m = handshake_response host m
  dispatch_response meta_connect m = connect_response host m
  dispatch_response meta_disconnect m = disconnect_response m
  dispatch_response meta_subscribe m = plain_response "/meta/subscribe" m
  dispatch_response meta_unsubscribe m = plain_response "/meta/unsubscribe" m
  dispatch_response other m = message_response m

  unfoldable pub dispatch_failure : MetaChannel → Value → Object → M W (Unit {0})
  unfolding handshake_failure connect_failure disconnect_failure plain_failure message_failure
  dispatch_failure meta_handshake xhr m = handshake_failure host xhr m
  dispatch_failure meta_connect xhr m = connect_failure host xhr m
  dispatch_failure meta_disconnect xhr m = disconnect_failure xhr m
  dispatch_failure meta_subscribe xhr m = plain_failure "/meta/subscribe" xhr m
  dispatch_failure meta_unsubscribe xhr m = plain_failure "/meta/unsubscribe" xhr m
  dispatch_failure other xhr m = message_failure xhr m

  abbrev pub take_advice : Object → Client W → Client W
  take_advice m s = elim (get "advice" m) [ obj a ↦ record s { advice = a } | _ ↦ s ]

  -- `_receive`: advice that is a true value but no object is left out.
  unfoldable pub receive : Object → M W (Unit {0})
  unfolding dispatch_response meta_channel
  receive m = modify (take_advice m) >> dispatch_response (meta_channel (get "channel" m)) m

  unfoldable pub receive_if : Option Object → M W (Unit {0})
  unfolding receive
  receive_if none = return tt
  receive_if (some m) = receive m

  unfoldable pub receive_all : List Object → M W (Unit {0})
  unfolding receive_if apply_incoming_extensions
  receive_all [] = return tt
  receive_all (m ∷ ms) = apply_incoming_extensions host m >>= receive_if >> receive_all ms

  abbrev pub complete_on : ℕ → Bool → Bool → Option ℕ → M W (Unit {0})
  complete_on request success longpoll none = throw type_error
  complete_on request success longpoll (some t) =
      with_state λ s. lift_world (host.complete t request success longpoll s.settings s.advice)

  unfoldable pub handle_response : (String → Outcome Value) → ℕ → Value → Bool → M W (Unit {0})
  unfolding convert_to_messages receive_all
  handle_response parse request response longpoll =
      lift_outcome (convert_to_messages parse response) >>= λ ms.
      with_state (λ s. complete_on request true longpoll s.transport) >> receive_all ms

  unfoldable pub fail_all : Value → List Object → M W (Unit {0})
  unfolding dispatch_failure meta_channel
  fail_all xhr [] = return tt
  fail_all xhr (m ∷ ms) = dispatch_failure (meta_channel (get "channel" m)) xhr m >> fail_all xhr ms

  unfoldable pub handle_failure : ℕ → Value → List Object → Bool → M W (Unit {0})
  unfolding fail_all
  handle_failure request xhr messages longpoll =
      with_state (λ s. complete_on request false longpoll s.transport) >> fail_all xhr messages

  -- `onSuccess` and `onFailure` of the envelope that `_send` makes.
  unfoldable pub on_success : (String → Outcome Value) → ℕ → Value → Bool → M W (Unit {0})
  unfolding handle_response
  on_success parse request response longpoll = try (handle_response parse request response longpoll)

  unfoldable pub on_failure : ℕ → Value → List Object → Bool → M W (Unit {0})
  unfolding handle_failure
  on_failure request xhr messages longpoll = try (handle_failure request xhr messages longpoll)
