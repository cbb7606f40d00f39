-- ===== src/Client/Responses.antt =====
-- media/js/cometd.js: what a client does with each response and with each failure.
use vurs.Prelude.{
  ℕ, String, Bool, true, false, not, ◌&&◌, Option, none, some, List, [], ◌∷◌, if◌then◌else◌,
  Outcome, ok, thrown, type_error, message,
}
use vurs.Prelude.Int.{pos}
use vurs.Value.{
  Value, Object, bool, num, str, arr, obj, end, field, get, put, truthy, is_absent, is_str, strings,
}
use vurs.Registry.{negotiate_transport}
use vurs.Client.State.{
  Client, disconnected, connecting, disconnecting, Host, M, throw, modify, with_state, ◌>>=◌, ◌>>◌,
}
use vurs.Client.Sending.{is_disconnected, reset_backoff, increase_backoff, flush_batch}
use vurs.Client.Connection.{
  set_status, lift_outcome, chosen, delayed_connect, delayed_handshake, notify_listeners,
  accepts_now,
}

-- `_advice.reconnect ? _advice.reconnect : 'retry'`
unfoldable pub action_of : Object → Value
action_of advice =
    let reconnect = get "reconnect" advice in if truthy reconnect then reconnect else str "retry"

-- The message that the listeners of a failure get.
abbrev pub failure_message : Value → Value → Object → String → ℕ → Object
failure_message channel xhr request action interval = field "successful" (bool false) (
    field "failure" (bool true) (
      field "channel" channel (
        field "request" (obj request) (
          field "xhr" xhr (
            field "advice"
              (obj (field "action" (str action) (field "interval" (num (pos interval)) end)))
              end)))))

-- The types that a response lists: the access to the length of nothing fails.
unfoldable pub offered_types : List String → Value → Outcome (List String)
offered_types [] v = ok []
offered_types (t ∷ ts) (arr xs) = ok (strings xs)
offered_types (t ∷ ts) v = if is_absent v then thrown type_error else ok []

module _ {W : Type 0} where
  -- `!_isDisconnected() && _advice.reconnect != 'none'`
  abbrev pub may_retry : Client W → Bool
  may_retry s = not (is_disconnected s.status) && not (is_str "none" (get "reconnect" s.advice))

  unfoldable pub remember_handshake : Client W → Client W
  remember_handshake s = record s { reestablish = true }

  -- The switches on the advised action, once the listeners have been told.
  unfoldable pub follow_handshake : Value → Client W → Client W
  unfolding delayed_connect
  follow_handshake action s = if is_str "retry" action then delayed_connect s else s

  unfoldable pub retry_handshake : Bool → Client W → Client W
  unfolding increase_backoff delayed_handshake
  retry_handshake retry s = if retry then delayed_handshake (increase_backoff s) else s

  unfoldable pub follow_connect : Value → Client W → Client W
  unfolding reset_backoff delayed_connect set_status
  follow_connect action s =
      if is_str "retry" action
      then delayed_connect (reset_backoff s)
      else set_status disconnected (reset_backoff s)

  unfoldable pub follow_unsuccessful_connect : Value → Client W → Client W
  unfolding increase_backoff reset_backoff delayed_connect delayed_handshake set_status
  follow_unsuccessful_connect action s =
      if is_str "retry" action
      then delayed_connect (increase_backoff s)
      else if is_str "handshake" action
      then delayed_handshake (reset_backoff s)
      else if is_str "none" action
      then set_status disconnected (reset_backoff s)
      else s

  unfoldable pub follow_connect_failure : Client W → Client W
  unfolding increase_backoff reset_backoff delayed_connect delayed_handshake action_of
  follow_connect_failure s =
      let action = action_of s.advice in
      if is_disconnected s.status
      then s
      else if is_str "retry" action
      then delayed_connect (increase_backoff s)
      else if is_str "handshake" action
      then delayed_handshake (reset_backoff s)
      else if is_str "none" action
      then reset_backoff s
      else s

  module _ (host : Host W) where
    abbrev pub notify_failed : String → Object → M W (Unit {0})
    notify_failed channel m =
        notify_listeners host channel m >> notify_listeners host "/meta/unsuccessful" m

    unfoldable pub adopt_transport : Option ℕ → M W (Unit {0})
    adopt_transport none = throw (message "Could not negotiate transport with server")
    adopt_transport (some t) = modify (λ s. record s { transport = some t })

    unfoldable pub handshake_accepted : Object → M W (Unit {0})
    unfolding adopt_transport remember_handshake follow_handshake action_of offered_types
        negotiate_transport
    handshake_accepted m =
        modify (λ s. record s { client_id = get "clientId" m })
        >> with_state λ s.
          lift_outcome (offered_types s.transports.types (get "supportedConnectionTypes" m))
          >>= λ offered.
              lift_outcome
                (negotiate_transport (accepts_now host (get "version" m) s) offered s.transports)
              >>= λ t.
                  adopt_transport (chosen t)
                  >> modify remember_handshake
                  >> notify_listeners host "/meta/handshake"
                      (put "reestablish" (bool s.reestablish) m)
                  >> modify (λ u. follow_handshake (action_of u.advice) u)

    unfoldable pub handshake_refused : Object → M W (Unit {0})
    unfolding set_status retry_handshake
    handshake_refused m = with_state λ s.
        modify (λ u. if may_retry s then u else set_status disconnected u)
        >> notify_failed "/meta/handshake" m
        >> modify (retry_handshake (may_retry s))

    unfoldable pub handshake_response : Object → M W (Unit {0})
    unfolding handshake_accepted handshake_refused
    handshake_response m =
        if truthy (get "successful" m) then handshake_accepted m else handshake_refused m

    unfoldable pub handshake_failure : Value → Object → M W (Unit {0})
    unfolding handshake_refused
    handshake_failure xhr m =
        with_state
          λ s. handshake_refused (failure_message (str "/meta/handshake") xhr m "retry" s.backoff)

    abbrev pub connect_action : Client W → Value
    connect_action s = if is_disconnected s.status then str "none" else action_of s.advice

    abbrev pub connect_status : Value → Client W → Client W
    connect_status action s =
        if is_disconnected s.status
        then s
        else set_status (if is_str "retry" action then connecting else disconnecting) s

    unfoldable pub connect_accepted : Value → Object → M W (Unit {0})
    unfolding flush_batch notify_listeners follow_connect
    connect_accepted action m =
        modify (λ s. record s { internal_batch = false })
        >> flush_batch host
        >> notify_listeners host "/meta/connect" m
        >> modify (follow_connect action)

    unfoldable pub connect_refused : Value → Object → M W (Unit {0})
    unfolding follow_unsuccessful_connect
    connect_refused action m =
        notify_failed "/meta/connect" m >> modify (follow_unsuccessful_connect action)

    unfoldable pub connect_response : Object → M W (Unit {0})
    unfolding action_of set_status connect_accepted connect_refused
    connect_response m = with_state λ s.
        let action = connect_action s in
        modify (connect_status action)
        >> (if truthy (get "successful" m)
            then connect_accepted action m
            else connect_refused action m)

    unfoldable pub connect_failure : Value → Object → M W (Unit {0})
    unfolding follow_connect_failure
    connect_failure xhr m = with_state λ s.
        notify_failed "/meta/connect"
          (failure_message (str "/meta/connect") xhr m "retry" s.backoff)
        >> modify follow_connect_failure
