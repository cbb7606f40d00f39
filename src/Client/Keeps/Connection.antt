-- ===== src/Client/Keeps/Connection.antt =====
-- media/js/cometd.js: handshake and connect messages, and the responses and failures, keep an
-- invariant, so long as the listeners and the extensions do.
use vurs.Prelude.{
  ℕ, String, Bool, true, false, Option, none, some, List, [], ◌∷◌, if◌then◌else◌, type_error,
  message,
}
use vurs.Prelude.Dict
use vurs.Value.{Value, Object, obj, get, put, bool, str, truthy, is_str, mixin, end}
use vurs.Registry.{find_transport_types, negotiate_transport}
use vurs.Client.State.{
  Client, Task, run_connect, run_handshake, connecting, connected, disconnecting, disconnected,
  Host,
}
use vurs.Client.Keeps.{
  Keeps, IsPolite, bind-Keeps, then-Keeps, with_state-Keeps, if-Keeps, modify-Keeps, return-Keeps,
  throw-Keeps, outcome-Keeps, notify_listeners-Keeps,
}
use vurs.Client.Keeps.Sending.{world-Keeps, send-Keeps, flush_batch-Keeps}
use vurs.Client.Keeps.Steps.{
  Respects, pick, follow_handshake-keeps, retry_handshake-keeps, follow_connect-keeps,
  follow_unsuccessful_connect-keeps, follow_connect_failure-keeps,
}
use vurs.Client.Sending.{is_disconnected, send}
use vurs.Client.Connection.{
  chosen, reset_one, reset_each, reset_transports, accepts_now, connect_by, connect,
  handshake_message, connect_message, negotiate_and_send, handshake, run_task, begin_handshaking,
  forget_session, hold_messages, notify_listeners, version,
}
use vurs.Client.Responses.{
  action_of, failure_message, notify_failed, adopt_transport, handshake_accepted, handshake_refused,
  handshake_response, handshake_failure, connect_accepted, connect_refused, connect_response,
  connect_failure, offered_types, connect_action, connect_status, may_retry, remember_handshake,
}

module _ {W : Type 0} {I : Client W → Type 0} (host : Host W) (steps : Respects I host)
    (polite : IsPolite I host) where
  reset_one-Keeps : (t : Option ℕ) → Keeps I (reset_one host t)
  reset_one-Keeps none = throw-Keeps type_error
  reset_one-Keeps (some t) = world-Keeps (host.reset t) (steps.was_reset t)

  reset_each-Keeps : (ts : List String) (d : List (String × ℕ)) → Keeps I (reset_each host ts d)
  unfolding reset_each
  reset_each-Keeps [] d = return-Keeps tt
  reset_each-Keeps (t ∷ ts) d =
      then-Keeps (reset_one-Keeps (Dict.lookup t d)) (reset_each-Keeps ts d)

  reset_transports-Keeps : Keeps I (reset_transports host)
  unfolding reset_transports
  reset_transports-Keeps =
      with_state-Keeps λ s. reset_each-Keeps s.transports.types s.transports.transports

  sends :
      (ms : List Object) (longpoll : Bool) (path : String)
      → Keeps I (send host ms longpoll (some path))
  sends ms longpoll path = send-Keeps host steps.delivers polite.outgoing ms longpoll (some path)

  connect_by-Keeps : (t : Option ℕ) → Keeps I (connect_by host t)
  unfolding connect_by
  connect_by-Keeps none = throw-Keeps type_error
  connect_by-Keeps (some t) = with_state-Keeps λ s.
      then-Keeps
        (then-Keeps (modify-Keeps (steps.set_status connecting))
          (sends (connect_message (host.get_type s.world t) ∷ []) true "connect"))
        (modify-Keeps (steps.set_status connected))

  pub connect-Keeps : Keeps I (connect host)
  unfolding connect
  connect-Keeps = with_state-Keeps λ s. connect_by-Keeps s.transport

  negotiate_and_send-Keeps : Keeps I (negotiate_and_send host)
  unfolding negotiate_and_send
  negotiate_and_send-Keeps = with_state-Keeps λ s.
      let accept = accepts_now host (str version) s in
      bind-Keeps (outcome-Keeps (find_transport_types accept s.transports)) λ types.
        bind-Keeps (outcome-Keeps (negotiate_transport accept types s.transports)) λ t.
          then-Keeps
            (modify-Keeps {f = begin_handshaking (chosen t)} (steps.begin_handshaking (chosen t)))
            (sends (mixin end (s.handshake_props ∷ obj (handshake_message types) ∷ []) ∷ []) false
              "handshake")

  pub handshake-Keeps : (props : Value) → Keeps I (handshake host props)
  unfolding handshake
  handshake-Keeps props =
      then-Keeps
        (then-Keeps
          (then-Keeps (modify-Keeps {f = forget_session} steps.forget_session) (
            with_state-Keeps
              λ s. if-Keeps (is_disconnected s.status) reset_transports-Keeps (return-Keeps tt)))
          (modify-Keeps {f = hold_messages props} (steps.hold_messages props)))
        negotiate_and_send-Keeps

  pub run_task-Keeps : (task : Task) → Keeps I (run_task host task)
  unfolding run_task
  run_task-Keeps run_connect = connect-Keeps
  run_task-Keeps run_handshake = with_state-Keeps λ s. handshake-Keeps s.handshake_props

  notifies : (c : String) (m : Object) → Keeps I (notify_listeners host c m)
  notifies = notify_listeners-Keeps I host polite.listener

  pub notify_failed-Keeps : (c : String) (m : Object) → Keeps I (notify_failed host c m)
  notify_failed-Keeps c m = then-Keeps (notifies c m) (notifies "/meta/unsuccessful" m)

  adopt_transport-Keeps : (t : Option ℕ) → Keeps I (adopt_transport host t)
  unfolding adopt_transport
  adopt_transport-Keeps none = throw-Keeps (message "Could not negotiate transport with server")
  adopt_transport-Keeps (some t) = modify-Keeps λ s. steps.transport s (some t)

  handshake_accepted-Keeps : (m : Object) → Keeps I (handshake_accepted host m)
  unfolding handshake_accepted
  handshake_accepted-Keeps m = then-Keeps (modify-Keeps λ s. steps.client_id s (get "clientId" m)) (
      with_state-Keeps λ s.
        bind-Keeps
          (outcome-Keeps (offered_types s.transports.types (get "supportedConnectionTypes" m)))
          λ offered.
            bind-Keeps
              (outcome-Keeps
                (negotiate_transport (accepts_now host (get "version" m) s) offered s.transports))
              λ t.
                then-Keeps
                  (then-Keeps
                    (then-Keeps (adopt_transport-Keeps (chosen t))
                      (modify-Keeps {f = remember_handshake} steps.remember_handshake))
                    (notifies "/meta/handshake" (put "reestablish" (bool s.reestablish) m)))
                  (modify-Keeps λ u. follow_handshake-keeps host steps (action_of u.advice) u))

  handshake_refused-Keeps : (m : Object) → Keeps I (handshake_refused host m)
  unfolding handshake_refused
  handshake_refused-Keeps m = with_state-Keeps λ s.
      then-Keeps
        (then-Keeps
          (modify-Keeps λ u i. pick I (may_retry s) _ _ i (steps.set_status disconnected u i))
          (notify_failed-Keeps "/meta/handshake" m))
        (modify-Keeps (retry_handshake-keeps host steps (may_retry s)))

  pub handshake_response-Keeps : (m : Object) → Keeps I (handshake_response host m)
  unfolding handshake_response
  handshake_response-Keeps m =
      if-Keeps (truthy (get "successful" m)) (handshake_accepted-Keeps m)
        (handshake_refused-Keeps m)

  pub handshake_failure-Keeps : (xhr : Value) (m : Object) → Keeps I (handshake_failure host xhr m)
  unfolding handshake_failure
  handshake_failure-Keeps xhr m =
      with_state-Keeps λ s.
        handshake_refused-Keeps (failure_message (str "/meta/handshake") xhr m "retry" s.backoff)

  connect_accepted-Keeps : (action : Value) (m : Object) → Keeps I (connect_accepted host action m)
  unfolding connect_accepted
  connect_accepted-Keeps action m =
      then-Keeps
        (then-Keeps
          (then-Keeps (modify-Keeps λ s. steps.internal_batch s false)
            (flush_batch-Keeps host steps.delivers polite.outgoing))
          (notifies "/meta/connect" m))
        (modify-Keeps (follow_connect-keeps host steps action))

  connect_refused-Keeps : (action : Value) (m : Object) → Keeps I (connect_refused host action m)
  unfolding connect_refused
  connect_refused-Keeps action m =
      then-Keeps (notify_failed-Keeps "/meta/connect" m)
        (modify-Keeps (follow_unsuccessful_connect-keeps host steps action))

  pub connect_response-Keeps : (m : Object) → Keeps I (connect_response host m)
  unfolding connect_response
  connect_response-Keeps m = with_state-Keeps λ s.
      let action = connect_action host s in
      then-Keeps
        (modify-Keeps {f = connect_status host action} λ t i.
          pick I (is_disconnected t.status) _ _ i
            (steps.set_status (if is_str "retry" action then connecting else disconnecting) t i))
        (if-Keeps (truthy (get "successful" m)) (connect_accepted-Keeps action m)
          (connect_refused-Keeps action m))

  pub connect_failure-Keeps : (xhr : Value) (m : Object) → Keeps I (connect_failure host xhr m)
  unfolding connect_failure
  connect_failure-Keeps xhr m = with_state-Keeps λ s.
      then-Keeps
        (notify_failed-Keeps "/meta/connect"
          (failure_message (str "/meta/connect") xhr m "retry" s.backoff))
        (modify-Keeps (follow_connect_failure-keeps host steps))
