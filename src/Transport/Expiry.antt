-- ===== src/Transport/Expiry.antt =====
-- media/js/cometd.js, org.cometd.Transport: a request whose timeout has fired.
pub mod Late
use vurs.Prelude.{
  ℕ, zero, suc, ◌-◌, ◌≤◌, ◌==◌, String, Bool, true, false, Bool-cases, Option, none, some,
  Option-cases, List, [], ◌∷◌, ◌≡◌, refl, inl, inr, ltb, length, arith, if◌then◌else◌,
}
use vurs.Value.{Object, Value}
use vurs.Client.State.{Envelope, Settings}
use vurs.Transport.State.{
  Request, Answer, Delayed, Transport, Network, Kind, exceed, report, give_up,
}
use vurs.Transport.Requests.{
  Event, sends, completes, answers, errs, fires, aborts, perform, run, has_id, without, queue_send,
  send_next, complete_request, forget_request, push_request, push_envelope, start, watch,
  set_timeout, count_request, next_request, longpoll_send, longpoll_complete, send, complete,
  clear_request, transport_success, transport_failure, abort, abort_requests, abort_longpoll,
  abort_xhr, run_delayed, find_id, reset_requests,
}
use vurs.Transport.Polling.{
  long_polling, callback_polling, long_polling_send, callback_polling_send, after_xhr, after_jsonp,
  keep_xhr, reset_long_polling, long_polling_error,
}

-- A kind of transport whose own methods mark no request as expired or not, and number none, and which
-- passes no failure of an expired request on, and changes then at most whether it is used for another
-- domain.
pub record KeepsExpired {W : Type 0} (kind : Kind W) : Type 0 where
  pub sending :
      (e : Envelope) (r : Request) (t : Transport W)
      → ((kind.transport_send e r t).expired ≡ t.expired)
        × ((kind.transport_send e r t).request_ids ≡ t.request_ids)
  pub failing :
      (e : Envelope) (r : Request) (reason : String) (t : Transport W)
      → ((kind.on_error e r reason t).0.expired ≡ t.expired)
        × ((kind.on_error e r reason t).0.request_ids ≡ t.request_ids)
  pub late :
      (e : Envelope) (r : Request) (reason : String) (t : Transport W)
      → has_id r.id t.expired ≡ true
      → (c : Bool) × (kind.on_error e r reason t ≡ (record t { supports_cross_domain = c }, none))
  pub resetting :
      (t : Transport W)
      → ((kind.reset t).expired ≡ t.expired) × ((kind.reset t).request_ids ≡ t.request_ids)

pub long_polling-KeepsExpired :
    {W : Type 0} (network : Network W) → KeepsExpired (long_polling network)
unfolding long_polling long_polling_send after_xhr keep_xhr set_timeout reset_long_polling
    reset_requests long_polling_error transport_failure clear_request
long_polling-KeepsExpired network = record {
  sending = λ e r t. ground arith;
  failing = λ e r reason t. ground arith;
  late = λ e r reason t h. (false, rw h refl);
  resetting = λ t. (refl, refl);
}

pub callback_polling-KeepsExpired :
    {W : Type 0} (network : Network W) → KeepsExpired (callback_polling network)
unfolding callback_polling callback_polling_send after_jsonp set_timeout reset_requests
    transport_failure clear_request
callback_polling-KeepsExpired network = record {
  sending = λ e r t. ground arith;
  failing = λ e r reason t. ground arith;
  late = λ e r reason t h. (t.supports_cross_domain, rw h refl);
  resetting = λ t. (refl, refl);
}

-- The timeout of the request has fired.
abbrev pub IsExpired : {W : Type 0} → Request → Transport W → Type 0
IsExpired r t = (has_id r.id t.expired ≡ true) × (r.id ≤ t.request_ids)

has_id-without :
    (i j : ℕ) (js : List ℕ) → has_id i (without j js) ≡ (if i == j then false else has_id i js)
unfolding has_id without
has_id-without i j [] = ground arith
has_id-without i j (k ∷ js) = ground (arith, has_id-without i j js)

module _ {W : Type 0} (kind : Kind W) (keeps : KeepsExpired kind) (settings : Settings)
    (advice : Object) (r : Request) where
  start-IsExpired :
      (longpoll : Bool) (e : Envelope) (t : Transport W)
      → IsExpired r t
      → IsExpired r (start kind settings advice e (next_request longpoll t) (count_request t))
  unfolding start watch set_timeout next_request count_request
  start-IsExpired longpoll e t i =
      let q = next_request longpoll t in
      let (same, ids) = keeps.sending e q (count_request t) in
      (rw (has_id-without r.id q.id, same) (ground arith), rw ids (ground arith))

  pub queue_send-IsExpired :
      (e : Envelope) (t : Transport W)
      → IsExpired r t
      → IsExpired r (queue_send kind settings advice e t)
  unfolding queue_send push_request push_envelope count_request
  queue_send-IsExpired e t i =
      elim (Bool-cases (ltb (length t.requests) (settings.max_connections - 1))) [
        | inl b ↦ rw b (start-IsExpired false e t i)
        | inr b ↦ rw b (i.0, omega (arith, i.1))
      ]

  pub send_next-IsExpired :
      (success : Bool) (es : List (Envelope × Request)) (t : Transport W)
      → IsExpired r t
      → IsExpired r (send_next kind settings advice success es t)
  unfolding send_next set_timeout
  send_next-IsExpired success [] t i = i
  send_next-IsExpired true ((e, q) ∷ es) t i =
      queue_send-IsExpired e (record t { envelopes = es }) i
  send_next-IsExpired false ((e, q) ∷ es) t i = i

  pub longpoll_send-IsExpired :
      (e : Envelope) (t : Transport W)
      → IsExpired r t
      → IsExpired r (longpoll_send kind settings advice e t).0
  unfolding longpoll_send
  longpoll_send-IsExpired e t i = elim (Option-cases t.longpoll_request) [
    | inl h ↦ rw h (start-IsExpired true e _ i)
    | inr (q, h) ↦ rw h i
  ]

  pub transport_failure-IsExpired :
      (e : Envelope) (q : Request) (reason : String) (t : Transport W)
      → IsExpired r t
      → IsExpired r (transport_failure e q reason t).0
  unfolding transport_failure clear_request
  transport_failure-IsExpired e q reason t i = ground arith

  pub transport_success-IsExpired :
      (e : Envelope) (q : Request) (v : Value) (t : Transport W)
      → IsExpired r t
      → IsExpired r (transport_success e q v t).0
  unfolding transport_success clear_request
  transport_success-IsExpired e q v t i = ground arith
