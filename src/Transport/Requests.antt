-- ===== src/Transport/Requests.antt =====
-- media/js/cometd.js, org.cometd.Transport: its operations.
use vurs.Prelude.{
  ℕ, suc, ◌+◌, ◌-◌, String, Bool, true, false, Option, none, some, List, [], ◌∷◌, ◌++◌, ◌==◌, not,
  if◌then◌else◌, ltb, length, message, Exception, Outcome, ok, thrown,
}
use vurs.Prelude.Int.{pos, negsuc}
use vurs.Value.{Value, Object, num, get}
use vurs.Client.State.{Envelope, Settings}
use vurs.Transport.State.{
  Request, Answer, succeeded, failed, Delayed, exceed, report, give_up, Timeout, Transport, Network,
  Kind,
}

unfoldable pub has_id : ℕ → List ℕ → Bool
has_id i [] = false
has_id i (j ∷ js) = if j == i then true else has_id i js

unfoldable pub without : ℕ → List ℕ → List ℕ
without i [] = []
without i (j ∷ js) = if j == i then without i js else j ∷ without i js

unfoldable pub find_id : ℕ → List (ℕ × ℕ) → Option ℕ
find_id i [] = none
find_id i ((j, v) ∷ js) = if j == i then some v else find_id i js

-- `clearTimeout(id)`
unfoldable pub clear_timer : ℕ → List Timeout → List Timeout
clear_timer i [] = []
clear_timer i (t ∷ ts) = if t.id == i then clear_timer i ts else t ∷ clear_timer i ts

unfoldable pub clear_known : Option ℕ → List Timeout → List Timeout
unfolding clear_timer
clear_known none ts = ts
clear_known (some i) ts = clear_timer i ts

-- `_requests.splice(index, 1)` where `_inArray(request, _requests)` finds the request.
unfoldable pub drop_request : Request → List Request → List Request
drop_request r [] = []
drop_request r (q ∷ qs) = if r.id == q.id then qs else q ∷ drop_request r qs

-- A timeout shorter than nothing fires at once.
unfoldable pub lengthen : ℕ → Value → ℕ
lengthen delay (num (pos n)) = delay + n
lengthen delay (num (negsuc n)) = delay - suc n
lengthen delay _ = delay

unfoldable pub delay_of : Settings → Object → Request → ℕ
unfolding lengthen
delay_of settings advice request =
    if request.longpoll
    then lengthen settings.max_network_delay (get "timeout" advice)
    else settings.max_network_delay

abbrev pub concurrent : Exception
concurrent = message "Concurrent longpoll requests not allowed"

abbrev pub mismatch : Exception
mismatch = message "Longpoll request mismatch"

module _ {W : Type 0} where
  unfoldable pub registered : String → Transport W → Transport W
  registered type t = record t { type = some type }

  unfoldable pub unregistered : Transport W → Transport W
  unregistered t = record t { type = none }

  unfoldable pub set_timeout : ℕ → Delayed → Transport W → Transport W
  set_timeout delay task t = record t {
    timers = record { id = t.next_timer; delay = delay; task = task } ∷ t.timers;
    next_timer = suc t.next_timer;
  }

  unfoldable pub clear_request : Request → Transport W → Transport W
  unfolding clear_known find_id
  clear_request r t = record t { timers = clear_known (find_id r.id t.timeouts) t.timers }

  unfoldable pub transport_success :
      Envelope → Request → Value → Transport W → Transport W × Option Answer
  unfolding has_id clear_request
  transport_success e r response t =
      if not (has_id r.id t.expired)
      then (clear_request r t, some (succeeded e r response))
      else (t, none)

  unfoldable pub transport_failure :
      Envelope → Request → String → Transport W → Transport W × Option Answer
  unfolding has_id clear_request
  transport_failure e r reason t =
      if not (has_id r.id t.expired)
      then (clear_request r t, some (failed e r reason))
      else (t, none)

  -- `request.expired = false; request.timeout = _setTimeout(…, delay)`
  unfoldable pub watch : ℕ → Envelope → Request → Transport W → Transport W
  unfolding without set_timeout
  watch delay e r t =
      set_timeout delay (exceed e r) (record t {
        expired = without r.id t.expired;
        timeouts = (r.id, t.next_timer) ∷ t.timeouts;
      })

  unfoldable pub next_request : Bool → Transport W → Request
  next_request longpoll t = record { id = suc t.request_ids; longpoll = longpoll }

  unfoldable pub count_request : Transport W → Transport W
  count_request t = record t { request_ids = suc t.request_ids }

  unfoldable pub reset_requests : Transport W → Transport W
  reset_requests t = record t { longpoll_request = none; requests = []; envelopes = [] }

  unfoldable pub push_request : Request → Transport W → Transport W
  push_request r t = record t { requests = t.requests ++ r ∷ [] }

  unfoldable pub push_envelope : Envelope → Request → Transport W → Transport W
  push_envelope e r t = record t { envelopes = t.envelopes ++ (e, r) ∷ [] }

  unfoldable pub forget_request : Request → Transport W → Transport W
  unfolding drop_request
  forget_request r t = record t { requests = drop_request r t.requests }

  unfoldable pub longpoll_complete : Request → Transport W → Transport W × Outcome (Unit {0})
  longpoll_complete r t = elim t.longpoll_request [
    | none ↦ (record t { longpoll_request = none }, ok tt)
    | some q ↦
        if q.id == r.id then (record t { longpoll_request = none }, ok tt) else (t, thrown mismatch)
  ]

  module _ (kind : Kind W) (settings : Settings) (advice : Object) where
    unfoldable pub start : Envelope → Request → Transport W → Transport W
    unfolding watch delay_of
    start e r t = watch (delay_of settings advice r) e r (kind.transport_send e r t)

    unfoldable pub longpoll_send : Envelope → Transport W → Transport W × Outcome (Unit {0})
    unfolding start next_request count_request
    longpoll_send e t = elim t.longpoll_request [
      | some q ↦ (t, thrown concurrent)
      | none ↦
          let r = next_request true t in
          (record (start e r (count_request t)) { longpoll_request = some r }, ok tt)
    ]

    unfoldable pub queue_send : Envelope → Transport W → Transport W
    unfolding start next_request count_request push_request push_envelope
    queue_send e t =
        let r = next_request false t in
        if ltb (length t.requests) (settings.max_connections - 1)
        then push_request r (start e r (count_request t))
        else push_envelope e r (count_request t)

    -- `if (_envelopes.length > 0) { … }`
    unfoldable pub send_next : Bool → List (Envelope × Request) → Transport W → Transport W
    unfolding queue_send set_timeout
    send_next success [] t = t
    send_next success ((e, r) ∷ rest) t =
        if success
        then queue_send e (record t { envelopes = rest })
        else set_timeout 0 (give_up e r) (record t { envelopes = rest })

    unfoldable pub complete_request : Request → Bool → Transport W → Transport W
    unfolding forget_request send_next
    complete_request r success t = send_next success t.envelopes (forget_request r t)

    unfoldable pub send : Envelope → Bool → Transport W → Transport W × Outcome (Unit {0})
    unfolding longpoll_send queue_send
    send e longpoll t = if longpoll then longpoll_send e t else (queue_send e t, ok tt)

    unfoldable pub complete : Request → Bool → Bool → Transport W → Transport W × Outcome (Unit {0})
    unfolding longpoll_complete complete_request
    complete r success longpoll t =
        if longpoll then longpoll_complete r t else (complete_request r success t, ok tt)

  module _ (network : Network W) where
    -- `if (request.xhr) { request.xhr.abort(); }`
    unfoldable pub abort_xhr : Option ℕ → Transport W → Transport W
    abort_xhr none t = t
    abort_xhr (some xhr) t = record t { world = network.xhr_abort xhr t.world }

    unfoldable pub abort_requests : List Request → Transport W → Transport W
    unfolding abort_xhr find_id
    abort_requests [] t = t
    abort_requests (r ∷ rs) t = abort_requests rs (abort_xhr (find_id r.id t.xhrs) t)

    unfoldable pub abort_longpoll : Option Request → Transport W → Transport W
    unfolding abort_xhr find_id
    abort_longpoll none t = t
    abort_longpoll (some r) t = abort_xhr (find_id r.id t.xhrs) t

    unfoldable pub abort : Kind W → Transport W → Transport W
    unfolding abort_requests abort_longpoll
    abort kind t = kind.reset (abort_longpoll t.longpoll_request (abort_requests t.requests t))

    -- A timeout that fires, and the answer that it gives.
    unfoldable pub run_delayed : Delayed → Transport W → Transport W × Option Answer
    unfolding abort_xhr find_id transport_failure
    run_delayed (exceed e r) t = (
      abort_xhr (find_id r.id t.xhrs) (record t { expired = r.id ∷ t.expired }),
      some (failed e r "timeout"),
    )
    run_delayed (report e r reason) t = transport_failure e r reason t
    run_delayed (give_up e r) t = (t, some (failed e r "error"))

-- What happens to a transport.
pub data Event : Type 0 where
  sends : Envelope → Bool → Event
  completes : Request → Bool → Bool → Event
  answers : Envelope → Request → Value → Event
  errs : Envelope → Request → String → Event
  fires : Delayed → Event
  aborts : Event

module _ {W : Type 0} (network : Network W) (kind : Kind W) (settings : Settings)
    (advice : Object) where
  unfoldable pub perform : Event → Transport W → Transport W
  unfolding send complete transport_success transport_failure run_delayed abort
  perform (sends e longpoll) t = (send kind settings advice e longpoll t).0
  perform (completes r success longpoll) t = (complete kind settings advice r success longpoll t).0
  perform (answers e r response) t = (transport_success e r response t).0
  perform (errs e r reason) t = (kind.on_error e r reason t).0
  perform (fires task) t = (run_delayed network task t).0
  perform aborts t = abort network kind t

  unfoldable pub run : List Event → Transport W → Transport W
  unfolding perform
  run [] t = t
  run (e ∷ es) t = run es (perform e t)
