-- ===== src/Transport/Bounds.antt =====
-- media/js/cometd.js, org.cometd.Transport: how many requests it has in flight.
use vurs.Prelude.{
  ℕ, String, suc, ◌-◌, ◌≤◌, ◌==◌, Bool, true, false, Bool-cases, Option-cases, List, [], ◌∷◌, ◌≡◌,
  refl, ap, inl, inr, length, length-append, ltb, arith,
}
use vurs.Value.{Object, Value}
use vurs.Client.State.{Envelope, Settings}
use vurs.Transport.State.{Request, Delayed, Transport, Network, Kind, exceed, report, give_up}
use vurs.Transport.Requests.{
  Event, sends, completes, answers, errs, fires, aborts, perform, run, drop_request, queue_send,
  send_next, complete_request, forget_request, push_request, push_envelope, start, watch,
  set_timeout, count_request, next_request, longpoll_send, longpoll_complete, send, complete,
  clear_request, transport_success, transport_failure, abort, run_delayed, reset_requests,
  abort_xhr,
}
use vurs.Transport.Polling.{
  long_polling, callback_polling, long_polling_send, callback_polling_send, after_xhr, after_jsonp,
  keep_xhr, reset_long_polling, long_polling_error,
}

-- A kind of transport whose own methods leave the requests and the queue of envelopes alone, but for
-- `reset`, which empties both.
pub record KeepsQueue {W : Type 0} (kind : Kind W) : Type 0 where
  pub send-requests :
      (e : Envelope) (r : Request) (t : Transport W)
      → (kind.transport_send e r t).requests ≡ t.requests
  pub send-envelopes :
      (e : Envelope) (r : Request) (t : Transport W)
      → (kind.transport_send e r t).envelopes ≡ t.envelopes
  pub on_error-requests :
      (e : Envelope) (r : Request) (reason : String) (t : Transport W)
      → (kind.on_error e r reason t).0.requests ≡ t.requests
  pub reset-requests : (t : Transport W) → (kind.reset t).requests ≡ []
  pub reset-envelopes : (t : Transport W) → (kind.reset t).envelopes ≡ []

pub length-drop_request : (r : Request) (rs : List Request) → length (drop_request r rs) ≤ length rs
unfolding drop_request
length-drop_request r [] = omega arith
length-drop_request r (q ∷ qs) =
    let rec = length-drop_request r qs in
    elim (Bool-cases (r.id == q.id)) [ inl e ↦ rw e (omega arith) | inr e ↦ rw e (omega arith) ]

module _ {W : Type 0} (network : Network W) where
  long_polling_send-requests :
      (e : Envelope) (r : Request) (t : Transport W)
      → ((long_polling_send network e r t).requests ≡ t.requests)
        × ((long_polling_send network e r t).envelopes ≡ t.envelopes)
  unfolding long_polling_send after_xhr keep_xhr set_timeout
  long_polling_send-requests e r t = ground arith

  callback_polling_send-requests :
      (e : Envelope) (r : Request) (t : Transport W)
      → ((callback_polling_send network e r t).requests ≡ t.requests)
        × ((callback_polling_send network e r t).envelopes ≡ t.envelopes)
  unfolding callback_polling_send after_jsonp set_timeout
  callback_polling_send-requests e r t = ground arith

  transport_failure-requests :
      (e : Envelope) (r : Request) (reason : String) (t : Transport W)
      → (transport_failure e r reason t).0.requests ≡ t.requests
  unfolding transport_failure clear_request
  transport_failure-requests e r reason t = ground arith

  pub long_polling-KeepsQueue : KeepsQueue (long_polling network)
  unfolding long_polling long_polling_error reset_long_polling reset_requests
  long_polling-KeepsQueue = record {
    send-requests = λ e r t. (long_polling_send-requests e r t).0;
    send-envelopes = λ e r t. (long_polling_send-requests e r t).1;
    on_error-requests = λ e r reason t.
        transport_failure-requests e r reason (record t { supports_cross_domain = false });
    reset-requests = λ t. refl;
    reset-envelopes = λ t. refl;
  }

  pub callback_polling-KeepsQueue : KeepsQueue (callback_polling network)
  unfolding callback_polling reset_requests
  callback_polling-KeepsQueue = record {
    send-requests = λ e r t. (callback_polling_send-requests e r t).0;
    send-envelopes = λ e r t. (callback_polling_send-requests e r t).1;
    on_error-requests = transport_failure-requests;
    reset-requests = λ t. refl;
    reset-envelopes = λ t. refl;
  }

-- At most one connection less than the maximum has a request in flight that is no long poll.
abbrev pub IsBounded : {W : Type 0} → Settings → Transport W → Type 0
IsBounded settings t = length t.requests ≤ settings.max_connections - 1

abbrev pub IsWithin : {W : Type 0} → ℕ → Transport W → Type 0
IsWithin most t = length t.requests ≤ most - 1

module _ {W : Type 0} (kind : Kind W) (keeps : KeepsQueue kind) (settings : Settings)
    (advice : Object) where
  pub start-requests :
      (e : Envelope) (r : Request) (t : Transport W)
      → (start kind settings advice e r t).requests ≡ t.requests
  unfolding start watch set_timeout
  start-requests e r t = keeps.send-requests e r t

  -- What `_queueSend` does while a connection is free, and while none is.
  pub queue_send-free :
      (e : Envelope) (t : Transport W)
      → ltb (length t.requests) (settings.max_connections - 1) ≡ true
      → queue_send kind settings advice e t
        ≡ push_request
            (next_request false t)
            (start kind settings advice e (next_request false t) (count_request t))
  unfolding queue_send
  queue_send-free e t b = rw b refl

  pub queue_send-full :
      (e : Envelope) (t : Transport W)
      → ltb (length t.requests) (settings.max_connections - 1) ≡ false
      → queue_send kind settings advice e t
        ≡ push_envelope e (next_request false t) (count_request t)
  unfolding queue_send
  queue_send-full e t b = rw b refl

  pub queue_send-requests :
      (e : Envelope) (t : Transport W)
      → ltb (length t.requests) (settings.max_connections - 1) ≡ true
      → length (queue_send kind settings advice e t).requests ≡ suc (length t.requests)
  unfolding push_request count_request
  queue_send-requests e t b =
      let r = next_request false t in
      let u = start kind settings advice e r (count_request t) in
      let same = ap length (start-requests e r (count_request t)) in
      let one = length-append u.requests (r ∷ []) in rw (queue_send-free e t b) (omega arith)

  module _ (most : ℕ) (fits : settings.max_connections ≤ most) where
    pub queue_send-IsWithin :
        (e : Envelope) (t : Transport W)
        → IsWithin most t
        → IsWithin most (queue_send kind settings advice e t)
    unfolding push_envelope count_request
    queue_send-IsWithin e t h =
        elim (Bool-cases (ltb (length t.requests) (settings.max_connections - 1))) [
          | inl b ↦ rw (queue_send-requests e t b) (ground arith)
          | inr b ↦ rw (queue_send-full e t b) h
        ]

    send_next-IsWithin :
        (success : Bool) (es : List (Envelope × Request)) (t : Transport W)
        → IsWithin most t
        → IsWithin most (send_next kind settings advice success es t)
    unfolding send_next set_timeout
    send_next-IsWithin success [] t h = h
    send_next-IsWithin true ((e, r) ∷ es) t h =
        queue_send-IsWithin e (record t { envelopes = es }) h
    send_next-IsWithin false ((e, r) ∷ es) t h = h

    pub complete_request-IsWithin :
        (r : Request) (success : Bool) (t : Transport W)
        → IsWithin most t
        → IsWithin most (complete_request kind settings advice r success t)
    unfolding complete_request forget_request
    complete_request-IsWithin r success t h =
        let d = length-drop_request r t.requests in
        send_next-IsWithin success t.envelopes (record t { requests = drop_request r t.requests })
          (omega arith)

  pub queue_send-IsBounded :
      (e : Envelope) (t : Transport W)
      → IsBounded settings t
      → IsBounded settings (queue_send kind settings advice e t)
  queue_send-IsBounded = queue_send-IsWithin settings.max_connections (omega arith)

  pub complete_request-IsBounded :
      (r : Request) (success : Bool) (t : Transport W)
      → IsBounded settings t
      → IsBounded settings (complete_request kind settings advice r success t)
  complete_request-IsBounded = complete_request-IsWithin settings.max_connections (omega arith)

  longpoll_send-requests :
      (e : Envelope) (t : Transport W)
      → (longpoll_send kind settings advice e t).0.requests ≡ t.requests
  unfolding longpoll_send count_request
  longpoll_send-requests e t = elim (Option-cases t.longpoll_request) [
    | inl h ↦ rw h (start-requests e _ _)
    | inr (q, h) ↦ rw h refl
  ]

  longpoll_complete-requests :
      (r : Request) (t : Transport W) → (longpoll_complete r t).0.requests ≡ t.requests
  unfolding longpoll_complete
  longpoll_complete-requests r t = ground arith

  transport_success-requests :
      (e : Envelope) (r : Request) (v : Value) (t : Transport W)
      → (transport_success e r v t).0.requests ≡ t.requests
  unfolding transport_success clear_request
  transport_success-requests e r v t = ground arith

  module _ (network : Network W) where
    run_delayed-requests :
        (d : Delayed) (t : Transport W) → (run_delayed network d t).0.requests ≡ t.requests
    unfolding run_delayed abort_xhr transport_failure clear_request
    run_delayed-requests (exceed e r) t = ground arith
    run_delayed-requests (report e r reason) t = ground arith
    run_delayed-requests (give_up e r) t = refl

    pub perform-IsWithin :
        (most : ℕ) (fits : settings.max_connections ≤ most) (e : Event) (t : Transport W)
        → IsWithin most t
        → IsWithin most (perform network kind settings advice e t)
    unfolding perform send complete abort
    perform-IsWithin most fits (sends e true) t h = rw (longpoll_send-requests e t) h
    perform-IsWithin most fits (sends e false) t h = queue_send-IsWithin most fits e t h
    perform-IsWithin most fits (completes r success true) t h =
        rw (longpoll_complete-requests r t) h
    perform-IsWithin most fits (completes r success false) t h =
        complete_request-IsWithin most fits r success t h
    perform-IsWithin most fits (answers e r v) t h = rw (transport_success-requests e r v t) h
    perform-IsWithin most fits (errs e r reason) t h = rw (keeps.on_error-requests e r reason t) h
    perform-IsWithin most fits (fires d) t h = rw (run_delayed-requests d t) h
    perform-IsWithin most fits aborts t h = rw (keeps.reset-requests _) (omega arith)

    pub perform-IsBounded :
        (e : Event) (t : Transport W)
        → IsBounded settings t
        → IsBounded settings (perform network kind settings advice e t)
    perform-IsBounded = perform-IsWithin settings.max_connections (omega arith)

    -- A kind of transport whose own methods leave the requests and the queue alone, but for `reset`,
    -- which empties both, never has more requests in flight, long polls left aside, than one less
    -- than the maximum number of connections, if it has no more at the start, whatever is sent,
    -- completed, answered, failed, timed out and aborted, in any order.
    pub run-IsBounded :
        (es : List Event) (t : Transport W)
        → IsBounded settings t
        → IsBounded settings (run network kind settings advice es t)
    unfolding run
    run-IsBounded [] t h = h
    run-IsBounded (e ∷ es) t h = run-IsBounded es _ (perform-IsBounded e t h)
