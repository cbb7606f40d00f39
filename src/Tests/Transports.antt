-- ===== src/Tests/Transports.antt =====
-- media/js/cometd.js, org.cometd.Transport: transports at fixed inputs.
use vurs.Prelude.{arith, ◌≡◌, refl, some, true, false, none, List, [], ◌∷◌, ◌++◌, ok}
use vurs.Value.{str, field, end}
use vurs.Client.State.{Envelope}
use vurs.Transport
use vurs.Transport.State.{Request, Transport, Kind, Network, failed, exceed}
use vurs.Transport.Requests
use vurs.Transport.Requests.{
  queue_send, complete_request, push_request, push_envelope, start, watch, set_timeout,
  count_request, next_request, reset_requests,
}
use vurs.Transport.Polling.{long_polling}
use vurs.Value.{Value}
use vurs.Prelude.{String, ◌≤◌}
use vurs.Transport.Requests.{run_delayed, transport_success, transport_failure}
use vurs.Transport.Watched.{long_polling-KeepsWatched}
use vurs.Transport.Watched.Once.{NoTimeout, success-NoTimeout}
use vurs.Transport.State.{succeeded}
use vurs.Transport.Expiry.{long_polling-KeepsExpired}
use vurs.Transport.Expiry.Late.{late-answers}
use vurs.Transport.Polling.{long_polling_send, after_xhr, keep_xhr}
use vurs.Transport.Bounds.{KeepsQueue, IsBounded, long_polling-KeepsQueue, run-IsBounded}
use vurs.Transport.Order.{
  in_flight, Logs, Serves, idle, sends, completes, IsBusy, given, sends-order,
}
use vurs.Transport.Drain.{done, next, pending, CanGoOn, Finishes-pending}
use vurs.Prelude.{◌+◌, ◌⊎◌, Bool}
use vurs.Tests.Clients.{defaults}

-- Two envelopes, and a transport that keeps what it is given to send.
abbrev pub first : Envelope
first = record { url = "/cometd"; messages = field "id" (str "1") end ∷ [] }

abbrev pub second : Envelope
second = record { url = "/cometd"; messages = field "id" (str "2") end ∷ [] }

abbrev pub recorder : Kind (List Envelope)
recorder = record {
  accept = λ cross_domain t. true;
  transport_send = λ e r t. record t { world = t.world ++ e ∷ [] };
  on_error = λ e r reason t. (t, some (failed e r reason));
  reset = reset_requests;
}

pub recorder-KeepsQueue : KeepsQueue recorder
unfolding reset_requests
recorder-KeepsQueue = record {
  send-requests = λ e r t. refl;
  send-envelopes = λ e r t. refl;
  on_error-requests = λ e r reason t. refl;
  reset-requests = λ t. refl;
  reset-envelopes = λ t. refl;
}

pub recorder-Logs : Logs recorder (λ w. w)
recorder-Logs = record { send-log = λ e r t. refl }

-- The second envelope waits for the first request.
abbrev pub waiting : Transport (List Envelope)
waiting =
    queue_send recorder defaults end second
      (queue_send recorder defaults end first (Transport.State.new []))

abbrev pub one : Request
one = record { id = 1; longpoll = false }

abbrev served : Transport (List Envelope)
served = complete_request recorder defaults end one true waiting

pub one-in_flight : in_flight one waiting.requests ≡ true
unfolding Transport.State.new queue_send push_request push_envelope start watch set_timeout
    count_request next_request in_flight
one-in_flight = refl

abbrev two_sends :
    Serves recorder defaults end (Transport.State.new []) (first ∷ second ∷ []) waiting
two_sends = sends second (sends first idle)

sends-order_example : (given (λ w. w) served ≡ first ∷ second ∷ []) × IsBusy defaults served
unfolding Transport.State.new
sends-order_example =
    sends-order recorder recorder-KeepsQueue defaults end (λ w. w) recorder-Logs refl refl
      (completes one one-in_flight two_sends)

-- The request that the first one's success sent.
abbrev three : Request
three = record { id = 3; longpoll = false }

abbrev drained : Transport (List Envelope)
drained = complete_request recorder defaults end three true served

three-in_flight : in_flight three served.requests ≡ true
unfolding Transport.State.new queue_send push_request push_envelope start watch set_timeout
    count_request next_request in_flight complete_request
three-in_flight = refl

Finishes-pending_example :
    (2 + pending drained ≡ pending waiting)
    × (((pending drained ≡ 0) × (drained.world ≡ first ∷ second ∷ [])) ⊎ CanGoOn drained)
unfolding Transport.State.new
Finishes-pending_example =
    Finishes-pending recorder recorder-KeepsQueue defaults end (λ w. w) recorder-Logs (omega arith)
      refl refl two_sends (next three three-in_flight (next one one-in_flight done))

-- A browser that answers nothing.
abbrev pub silent : Network (List Envelope)
silent = record {
  xhr_send = λ url body r w. (w, ok none);
  jsonp_send = λ url body r w. (w, ok tt);
  xhr_abort = λ xhr w. w;
  to_json = λ ms. "[]";
  encode_uri = λ s. s;
}

abbrev requests_made : List Requests.Event
requests_made =
    Requests.sends first false
    ∷ Requests.sends second false
    ∷ Requests.fires (exceed first one)
    ∷ Requests.completes one false false
    ∷ []

run-IsBounded_example :
    IsBounded defaults (
      Requests.run silent (long_polling silent) defaults end requests_made (Transport.State.new []))
unfolding Transport.State.new
run-IsBounded_example =
    run-IsBounded (long_polling silent) (long_polling-KeepsQueue silent) defaults end silent
      requests_made (Transport.State.new []) (omega arith)

-- The first request times out; the transport goes on, and then its response arrives.
abbrev sent_one : Transport (List Envelope)
sent_one = queue_send (long_polling silent) defaults end first (Transport.State.new [])

one_made : 1 ≤ sent_one.request_ids
unfolding Transport.State.new queue_send push_request start watch set_timeout count_request
    next_request long_polling long_polling_send after_xhr keep_xhr
one_made = omega arith

abbrev after_timeout : Transport (List Envelope)
after_timeout =
    Requests.run silent (long_polling silent) defaults end
      (Requests.completes one false false ∷ Requests.sends second false ∷ [])
      (run_delayed silent (exceed first one) sent_one).0

late-answers_example :
    ((v : Value) → transport_success first one v after_timeout ≡ (after_timeout, none))
    × ((reason : String)
        → (c : Bool) × ((long_polling silent).on_error first one reason after_timeout
            ≡ (record after_timeout { supports_cross_domain = c }, none)))
late-answers_example =
    late-answers silent (long_polling silent) (long_polling-KeepsExpired silent) defaults end one
      first sent_one (Requests.completes one false false ∷ Requests.sends second false ∷ [])
      one_made

abbrev sent_then_answered : Transport (List Envelope)
sent_then_answered =
    (transport_success first one (str "[]") (
      Requests.run silent (long_polling silent) defaults end (Requests.sends first false ∷ [])
        (Transport.State.new []))).0

-- The second envelope's request has a timeout, and the first one's has none.
success-NoTimeout_example :
    NoTimeout one.id
      (Requests.run silent
        (long_polling silent)
        defaults
        end
        (Requests.sends second false ∷ [])
        sent_then_answered).timers
unfolding Transport.State.new Requests.run Requests.perform Requests.send queue_send push_request
    start watch set_timeout count_request next_request long_polling long_polling_send after_xhr
    keep_xhr transport_success Requests.has_id Requests.without Requests.clear_request
success-NoTimeout_example =
    success-NoTimeout silent (long_polling silent) (long_polling-KeepsWatched silent) defaults end
      (Requests.sends first false ∷ []) (Requests.sends second false ∷ []) [] first one (str "[]")
      (succeeded first one (str "[]")) (omega arith) refl
