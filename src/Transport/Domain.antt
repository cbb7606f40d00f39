-- ===== src/Transport/Domain.antt =====
-- media/js/cometd.js, org.cometd.LongPollingTransport: whether it is used for another domain.
use vurs.Prelude.{
  ℕ, ◌-◌, String, Bool, true, false, Bool-cases, Option, Option-cases, none, some, List, [], ◌∷◌,
  ◌≡◌, refl, inl, inr, length, ltb, arith, Outcome, ok, thrown, unfinished,
}
use vurs.Value.{Object, Value}
use vurs.Client.State.{Envelope, Settings}
use vurs.Transport.State.{Request, Delayed, Transport, Network, exceed, report, give_up}
use vurs.Transport.Requests.{
  Event, sends, completes, answers, errs, fires, aborts, perform, run, queue_send, send_next,
  complete_request, forget_request, push_request, push_envelope, start, watch, set_timeout,
  count_request, longpoll_send, longpoll_complete, send, complete, clear_request, transport_success,
  transport_failure, run_delayed, abort, abort_xhr,
}
use vurs.Transport.Polling.{
  long_polling, accepts_domain, long_polling_send, after_xhr, keep_xhr, long_polling_error,
  reset_long_polling,
}

-- The transport was found not to reach other domains.
abbrev pub IsConfined : {W : Type 0} → Transport W → Type 0
IsConfined t = t.supports_cross_domain ≡ false

-- No event of a list resets the transport.
abbrev pub NoAbort : List Event → Type 0
NoAbort [] = Unit {0}
NoAbort (aborts ∷ es) = ⊥
NoAbort (_ ∷ es) = NoAbort es

module _ {W : Type 0} (network : Network W) (settings : Settings) (advice : Object) where
  after_xhr-IsConfined :
      (e : Envelope) (r : Request) (t : Transport W) (a : W × Outcome (Option ℕ))
      → IsConfined t
      → IsConfined (after_xhr e r t a)
  unfolding after_xhr keep_xhr set_timeout
  after_xhr-IsConfined e r t (w, ok none) h = h
  after_xhr-IsConfined e r t (w, ok (some x)) h = h
  after_xhr-IsConfined e r t (w, thrown x) h = refl
  after_xhr-IsConfined e r t (w, unfinished) h = h

  start-IsConfined :
      (e : Envelope) (r : Request) (t : Transport W)
      → IsConfined t
      → IsConfined (start (long_polling network) settings advice e r t)
  unfolding start watch set_timeout long_polling long_polling_send
  start-IsConfined e r t h = after_xhr-IsConfined e r t _ h

  queue_send-IsConfined :
      (e : Envelope) (t : Transport W)
      → IsConfined t
      → IsConfined (queue_send (long_polling network) settings advice e t)
  unfolding queue_send push_request push_envelope count_request
  queue_send-IsConfined e t h =
      elim (Bool-cases (ltb (length t.requests) (settings.max_connections - 1))) [
        | inl b ↦ rw b (start-IsConfined e _ _ h)
        | inr b ↦ rw b h
      ]

  send_next-IsConfined :
      (success : Bool) (es : List (Envelope × Request)) (t : Transport W)
      → IsConfined t
      → IsConfined (send_next (long_polling network) settings advice success es t)
  unfolding send_next set_timeout
  send_next-IsConfined success [] t h = h
  send_next-IsConfined true ((e, r) ∷ es) t h = queue_send-IsConfined e _ h
  send_next-IsConfined false ((e, r) ∷ es) t h = h

  longpoll_send-IsConfined :
      (e : Envelope) (t : Transport W)
      → IsConfined t
      → IsConfined (longpoll_send (long_polling network) settings advice e t).0
  unfolding longpoll_send count_request
  longpoll_send-IsConfined e t h = elim (Option-cases t.longpoll_request) [
    | inl f ↦ rw f (start-IsConfined e _ _ h)
    | inr (q, f) ↦ rw f h
  ]

  longpoll_complete-IsConfined :
      (r : Request) (t : Transport W) → IsConfined t → IsConfined (longpoll_complete r t).0
  unfolding longpoll_complete
  longpoll_complete-IsConfined r t h = ground arith

  transport_success-IsConfined :
      (e : Envelope) (r : Request) (v : Value) (t : Transport W)
      → IsConfined t
      → IsConfined (transport_success e r v t).0
  unfolding transport_success clear_request
  transport_success-IsConfined e r v t h = ground arith

  transport_failure-IsConfined :
      (e : Envelope) (r : Request) (reason : String) (t : Transport W)
      → IsConfined t
      → IsConfined (transport_failure e r reason t).0
  unfolding transport_failure clear_request
  transport_failure-IsConfined e r reason t h = ground arith

  run_delayed-IsConfined :
      (d : Delayed) (t : Transport W) → IsConfined t → IsConfined (run_delayed network d t).0
  unfolding run_delayed abort_xhr
  run_delayed-IsConfined (exceed e r) t h = ground arith
  run_delayed-IsConfined (report e r reason) t h = transport_failure-IsConfined e r reason t h
  run_delayed-IsConfined (give_up e r) t h = h

  errs-IsConfined :
      (e : Envelope) (r : Request) (reason : String) (t : Transport W)
      → IsConfined (perform network (long_polling network) settings advice (errs e r reason) t)
  unfolding perform long_polling long_polling_error
  errs-IsConfined e r reason t = transport_failure-IsConfined e r reason _ refl

  run-IsConfined :
      (es : List Event) (t : Transport W)
      → NoAbort es
      → IsConfined t
      → IsConfined (run network (long_polling network) settings advice es t)
  unfolding run perform send complete complete_request forget_request
  run-IsConfined [] t n h = h
  run-IsConfined (sends e true ∷ es) t n h = run-IsConfined es _ n (longpoll_send-IsConfined e t h)
  run-IsConfined (sends e false ∷ es) t n h = run-IsConfined es _ n (queue_send-IsConfined e t h)
  run-IsConfined (completes r success true ∷ es) t n h =
      run-IsConfined es _ n (longpoll_complete-IsConfined r t h)
  run-IsConfined (completes r success false ∷ es) t n h =
      run-IsConfined es _ n (send_next-IsConfined success t.envelopes _ h)
  run-IsConfined (answers e r v ∷ es) t n h =
      run-IsConfined es _ n (transport_success-IsConfined e r v t h)
  run-IsConfined (errs e r reason ∷ es) t n h = run-IsConfined es _ n (errs-IsConfined e r reason t)
  run-IsConfined (fires d ∷ es) t n h = run-IsConfined es _ n (run_delayed-IsConfined d t h)
  run-IsConfined (aborts ∷ es) t n h = absurd n

  pub failed-IsConfined :
      (e : Envelope) (r : Request) (reason : String) (es : List Event) (t : Transport W)
      → NoAbort es
      → IsConfined (run network (long_polling network) settings advice (errs e r reason ∷ es) t)
  unfolding run
  failed-IsConfined e r reason es t n = run-IsConfined es _ n (errs-IsConfined e r reason t)

  -- Once an error of a request has been reported to the long-polling transport, and whatever it is given
  -- to send, and is answered, fails and times out after that, until it is aborted or reset: the
  -- transport accepts a client on the page's own domain and none on another one. An abort makes it
  -- accept both again, and so does a reset, which each handshake of the page calls.
  pub accept-failed :
      (e : Envelope) (r : Request) (reason : String) (es : List Event) (t : Transport W)
      → NoAbort es
      → let kind = long_polling network in
        let u = run network kind settings advice (errs e r reason ∷ es) t in
        (kind.accept true u ≡ false)
        × (kind.accept false u ≡ true)
        × (kind.accept true (perform network kind settings advice aborts u) ≡ true)
        × (kind.accept false (perform network kind settings advice aborts u) ≡ true)
        × (kind.accept true (kind.reset u) ≡ true)
        × (kind.accept false (kind.reset u) ≡ true)
  unfolding run accepts_domain perform abort long_polling reset_long_polling
  accept-failed e r reason es t n =
      let confined = failed-IsConfined e r reason es t n in
      (rw confined refl, rw confined refl, refl, refl, refl, refl)
