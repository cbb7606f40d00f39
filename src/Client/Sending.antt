-- ===== src/Client/Sending.antt =====
-- media/js/cometd.js: timeouts, the batch, the backoff and the delivery of messages.
use vurs.Prelude.{
  ℕ, zero, suc, ◌+◌, String, Bool, true, false, Option, none, some, List, [], ◌∷◌, ◌++◌, ◌==◌, ◌&&◌,
  ◌||◌, not, if◌then◌else◌, ltb, code, type_error, message, Exception,
}
use vurs.Prelude.Int.{ℤ, pos, negsuc, up, down, pos_part}
use vurs.Value.{Value, Object, num, get, put, truthy}
use vurs.Client.State.{
  Client, Status, disconnected, disconnecting, Task, Timer, Envelope, Host, M, return, throw,
  modify, with_state, lift_world, ◌>>=◌, ◌>>◌,
}
use vurs.Client.Extensions.{apply_outgoing_extensions}
use Prim.Native.String.{◌++◌ as ◌<>◌}

abbrev pub is_disconnected : Status → Bool
is_disconnected disconnecting = true
is_disconnected disconnected = true
is_disconnected _ = false

-- `clearTimeout(id)`
unfoldable pub clear_timeout : ℕ → List Timer → List Timer
clear_timeout id [] = []
clear_timeout id (t ∷ ts) = if t.id == id then clear_timeout id ts else t ∷ clear_timeout id ts

unfoldable pub clear_scheduled : Option ℕ → List Timer → List Timer
unfolding clear_timeout
clear_scheduled none ts = ts
clear_scheduled (some id) ts = clear_timeout id ts

-- `_advice.interval && _advice.interval > 0 ? _advice.interval : 0`
unfoldable pub interval_of : Value → ℕ
interval_of (num (pos n)) = n
interval_of _ = 0

unfoldable pub ends_with_slash : String → Bool
ends_with_slash String.[] = false
ends_with_slash (String.◌∷◌ c String.[]) = code c == b'/'
ends_with_slash (String.◌∷◌ c (String.◌∷◌ d s)) = ends_with_slash (String.◌∷◌ d s)

unfoldable pub request_url : String → Option String → String
unfolding ends_with_slash
request_url url none = if ends_with_slash url then url else url <> "/"
request_url url (some path) = (if ends_with_slash url then url else url <> "/") <> path

abbrev pub cons_if : Option Object → List Object → List Object
cons_if none ms = ms
cons_if (some m) ms = m ∷ ms

abbrev pub not_paired : Exception
not_paired = message "Calls to startBatch() and endBatch() are not paired"

abbrev pub is_zero : ℤ → Bool
is_zero (pos zero) = true
is_zero _ = false

abbrev pub is_negative : ℤ → Bool
is_negative (negsuc n) = true
is_negative _ = false

module _ {W : Type 0} where
  unfoldable pub cancel_delayed_send : Client W → Client W
  unfolding clear_scheduled
  cancel_delayed_send s = record s {
    timers = clear_scheduled s.scheduled_send s.timers;
    scheduled_send = none;
  }

  unfoldable pub set_timeout : ℕ → Task → Client W → Client W
  set_timeout delay task s = record s {
    timers = record { id = s.next_timer; delay = delay; task = task } ∷ s.timers;
    scheduled_send = some s.next_timer;
    next_timer = suc s.next_timer;
  }

  unfoldable pub delayed_send : Task → Client W → Client W
  unfolding cancel_delayed_send set_timeout interval_of
  delayed_send task s =
      let t = cancel_delayed_send s in
      set_timeout (t.backoff + interval_of (get "interval" t.advice)) task t

  unfoldable pub reset_backoff : Client W → Client W
  reset_backoff s = record s { backoff = 0 }

  unfoldable pub increase_backoff : Client W → Client W
  increase_backoff s =
      if ltb s.backoff s.max_backoff
      then record s { backoff = s.backoff + s.backoff_increment }
      else s

  unfoldable pub start_batch : Client W → Client W
  start_batch s = record s { batch = up s.batch }

  -- `message.id = _nextMessageId()`, and the client's id where it is known.
  abbrev pub stamped : Client W → Object → Object
  stamped s m =
      let m' = put "id" (num (pos (suc s.message_id))) m in
      if truthy s.client_id then put "clientId" s.client_id m' else m'

  unfoldable pub stamp : Object → M W Object
  stamp m =
      with_state
        λ s. modify (λ t. record t { message_id = suc t.message_id }) >> return (stamped s m)

  module _ (host : Host W) where
    -- The loop of `_send` over the messages.
    unfoldable pub prepare : List Object → M W (List Object)
    unfolding stamp apply_outgoing_extensions
    prepare [] = return []
    prepare (m ∷ ms) = stamp m >>= λ m'.
        apply_outgoing_extensions host m' >>= λ r. prepare ms >>= λ rest. return (cons_if r rest)

    unfoldable pub transport_send : Envelope → Bool → Option ℕ → M W (Unit {0})
    transport_send envelope longpoll none = throw type_error
    transport_send envelope longpoll (some t) =
        with_state λ s. lift_world (host.send t envelope longpoll s.settings s.advice)

    unfoldable pub deliver : Bool → Option String → List Object → M W (Unit {0})
    unfolding transport_send request_url
    deliver longpoll extra_path [] = return tt
    deliver longpoll extra_path (m ∷ ms) = with_state λ s.
        transport_send (record { url = request_url s.url extra_path; messages = m ∷ ms }) longpoll
          s.transport

    unfoldable pub send : List Object → Bool → Option String → M W (Unit {0})
    unfolding prepare deliver
    send messages longpoll extra_path = prepare messages >>= deliver longpoll extra_path

    unfoldable pub queue_send : Object → M W (Unit {0})
    unfolding send
    queue_send m = with_state λ s.
        if ltb 0 (pos_part s.batch) || s.internal_batch
        then modify (λ t. record t { message_queue = t.message_queue ++ m ∷ [] })
        else send (m ∷ []) false none

    unfoldable pub send_all : List Object → M W (Unit {0})
    unfolding send
    send_all [] = return tt
    send_all (m ∷ ms) = send (m ∷ ms) false none

    unfoldable pub flush_batch : M W (Unit {0})
    unfolding send_all
    flush_batch =
        with_state λ s. modify (λ t. record t { message_queue = [] }) >> send_all s.message_queue

    unfoldable pub end_batch : M W (Unit {0})
    unfolding flush_batch
    end_batch =
        modify (λ s. record s { batch = down s.batch })
        >> with_state λ s.
          if is_negative s.batch
          then throw not_paired
          else if is_zero s.batch && not (is_disconnected s.status) && not s.internal_batch
          then flush_batch
          else return tt
