-- ===== src/Transport/Watched/Once.antt =====
-- media/js/cometd.js, org.cometd.Transport: a request is answered or its timeout fires, never both.
use vurs.Prelude.{
  ℕ, suc, ◌-◌, ◌≤◌, ◌==◌, Bool, true, false, Bool-cases, Option, none, some, Option-cases, List, [],
  ◌∷◌, ◌≡◌, sym, subst, inl, inr, ltb, length, arith,
}
use vurs.Value.{Object, Value}
use vurs.Client.State.{Envelope, Settings}
use vurs.Transport.State.{
  Request, Answer, Delayed, Timeout, Transport, Network, Kind, exceed, report, give_up, new,
}
use vurs.Transport.Requests.{
  Event, sends, completes, answers, errs, fires, aborts, perform, run, has_id, queue_send,
  send_next, complete_request, forget_request, push_request, push_envelope, start, watch,
  set_timeout, count_request, next_request, longpoll_send, longpoll_complete, send, complete,
  clear_request, transport_success, transport_failure, abort, abort_requests, abort_longpoll,
  abort_xhr, run_delayed, find_id, delay_of,
}
use vurs.Transport.Watched.{
  EachWatched, WatchedOne, EachWatched-fresh, EachWatched-later, EachWatched-cleared, Watches,
  KeepsWatched, clear_request-Watches, transport_failure-Watches,
}

-- Every timeout of a request is remembered by it, and none is the request `a`'s.
abbrev pub IsWatched : {W : Type 0} → ℕ → Transport W → Type 0
IsWatched a t = (a ≤ t.request_ids) × EachWatched a t.request_ids t.timeouts t.timers

-- No timeout is set for the request.
abbrev pub IsNotFor : ℕ → Delayed → Type 0
IsNotFor a (exceed e q) = (q.id == a) ≡ false
IsNotFor a (report e q reason) = Unit {0}
IsNotFor a (give_up e q) = Unit {0}

abbrev pub NoTimeout : ℕ → List Timeout → Type 0
NoTimeout a [] = Unit {0}
NoTimeout a (t ∷ ts) = IsNotFor a t.task × NoTimeout a ts

WatchedOne-IsNotFor :
    (a n : ℕ) (known : List (ℕ × ℕ)) (id : ℕ) (d : Delayed)
    → WatchedOne a n known id d
    → IsNotFor a d
WatchedOne-IsNotFor a n known id (exceed e q) w = w.2
WatchedOne-IsNotFor a n known id (report e q reason) w = tt
WatchedOne-IsNotFor a n known id (give_up e q) w = tt

EachWatched-NoTimeout :
    (a n : ℕ) (known : List (ℕ × ℕ)) (ts : List Timeout) → EachWatched a n known ts → NoTimeout a ts
EachWatched-NoTimeout a n known [] w = tt
EachWatched-NoTimeout a n known (t ∷ ts) w =
    (WatchedOne-IsNotFor a n known t.id t.task w.0, EachWatched-NoTimeout a n known ts w.1)

module _ {W : Type 0} (a : ℕ) where
  pub Watches-IsWatched : (t u : Transport W) → Watches t u → IsWatched a t → IsWatched a u
  Watches-IsWatched t u (ids, known, keeps) (le, w) = rw (ids, known) (le, keeps a t.request_ids w)

  watch-IsWatched :
      (delay : ℕ) (e : Envelope) (longpoll : Bool) (n : ℕ) (known : List (ℕ × ℕ)) (u : Transport W)
      → a ≤ n
      → u.request_ids ≡ suc n
      → u.timeouts ≡ known
      → EachWatched a n known u.timers
      → IsWatched a (watch delay e (record { id = suc n; longpoll = longpoll }) u)
  unfolding watch set_timeout find_id
  watch-IsWatched delay e longpoll n known u le ids same w =
      let fresh = EachWatched-fresh a n known u.next_timer u.timers w in
      let at_known =
        subst (λ k. EachWatched a (suc n) ((suc n, u.next_timer) ∷ k) u.timers) (sym same) fresh in
      (
        omega arith,
        (
          (ground arith, omega arith, ground arith),
          subst (λ k. EachWatched a k ((suc n, u.next_timer) ∷ u.timeouts) u.timers) (sym ids)
              at_known,
        ),
      )

  module _ (network : Network W) (kind : Kind W) (keeps : KeepsWatched kind) (settings : Settings)
      (advice : Object) where
    start-IsWatched :
        (longpoll : Bool) (e : Envelope) (t : Transport W)
        → IsWatched a t
        → IsWatched a (start kind settings advice e (next_request longpoll t) (count_request t))
    unfolding start next_request count_request
    start-IsWatched longpoll e t (le, w) =
        let q = next_request longpoll t in
        let (ids, known, steps) = keeps.sending e q (count_request t) in
        watch-IsWatched (delay_of settings advice q) e longpoll t.request_ids t.timeouts
          (kind.transport_send e q (count_request t)) le ids known (steps a t.request_ids w)

    queue_send-IsWatched :
        (e : Envelope) (t : Transport W)
        → IsWatched a t
        → IsWatched a (queue_send kind settings advice e t)
    unfolding queue_send push_request push_envelope count_request
    queue_send-IsWatched e t i =
        elim (Bool-cases (ltb (length t.requests) (settings.max_connections - 1))) [
          | inl b ↦ rw b (start-IsWatched false e t i)
          | inr b ↦
              rw b (omega (arith, i.0), EachWatched-later a t.request_ids t.timeouts t.timers i.1)
        ]

    send_next-IsWatched :
        (success : Bool) (es : List (Envelope × Request)) (t : Transport W)
        → IsWatched a t
        → IsWatched a (send_next kind settings advice success es t)
    unfolding send_next set_timeout
    send_next-IsWatched success [] t i = i
    send_next-IsWatched true ((e, q) ∷ es) t i =
        queue_send-IsWatched e (record t { envelopes = es }) i
    send_next-IsWatched false ((e, q) ∷ es) t i = (i.0, (tt, i.1))

    longpoll_send-IsWatched :
        (e : Envelope) (t : Transport W)
        → IsWatched a t
        → IsWatched a (longpoll_send kind settings advice e t).0
    unfolding longpoll_send
    longpoll_send-IsWatched e t i = elim (Option-cases t.longpoll_request) [
      | inl h ↦ rw h (start-IsWatched true e _ i)
      | inr (q, h) ↦ rw h i
    ]

    abort_xhr-IsWatched :
        (xhr : Option ℕ) (t : Transport W) → IsWatched a t → IsWatched a (abort_xhr network xhr t)
    unfolding abort_xhr
    abort_xhr-IsWatched none t i = i
    abort_xhr-IsWatched (some xhr) t i = i

    abort_requests-IsWatched :
        (qs : List Request) (t : Transport W)
        → IsWatched a t
        → IsWatched a (abort_requests network qs t)
    unfolding abort_requests
    abort_requests-IsWatched [] t i = i
    abort_requests-IsWatched (q ∷ qs) t i =
        abort_requests-IsWatched qs _ (abort_xhr-IsWatched (find_id q.id t.xhrs) t i)

    abort_longpoll-IsWatched :
        (q : Option Request) (t : Transport W)
        → IsWatched a t
        → IsWatched a (abort_longpoll network q t)
    unfolding abort_longpoll
    abort_longpoll-IsWatched none t i = i
    abort_longpoll-IsWatched (some q) t i = abort_xhr-IsWatched (find_id q.id t.xhrs) t i

    run_delayed-IsWatched :
        (d : Delayed) (t : Transport W) → IsWatched a t → IsWatched a (run_delayed network d t).0
    unfolding run_delayed
    run_delayed-IsWatched (exceed e q) t i =
        abort_xhr-IsWatched (find_id q.id t.xhrs) (record t { expired = q.id ∷ t.expired }) i
    run_delayed-IsWatched (report e q reason) t i =
        Watches-IsWatched t (transport_failure e q reason t).0
          (transport_failure-Watches e q reason t) i
    run_delayed-IsWatched (give_up e q) t i = i

    transport_success-IsWatched :
        (e : Envelope) (q : Request) (v : Value) (t : Transport W)
        → IsWatched a t
        → IsWatched a (transport_success e q v t).0
    unfolding transport_success
    transport_success-IsWatched e q v t i = elim (Bool-cases (has_id q.id t.expired)) [
      | inl h ↦ rw h i
      | inr h ↦ rw h (Watches-IsWatched t (clear_request q t) (clear_request-Watches q t) i)
    ]

    longpoll_complete-IsWatched :
        (q : Request) (t : Transport W) → IsWatched a t → IsWatched a (longpoll_complete q t).0
    unfolding longpoll_complete
    longpoll_complete-IsWatched q t i = elim (Option-cases t.longpoll_request) [
      | inl h ↦ rw h i
      | inr (p, h) ↦ elim (Bool-cases (p.id == q.id)) [ inl b ↦ rw (h, b) i | inr b ↦ rw (h, b) i ]
    ]

    perform-IsWatched :
        (e : Event) (t : Transport W)
        → IsWatched a t
        → IsWatched a (perform network kind settings advice e t)
    unfolding perform send complete complete_request forget_request abort
    perform-IsWatched (sends e true) t i = longpoll_send-IsWatched e t i
    perform-IsWatched (sends e false) t i = queue_send-IsWatched e t i
    perform-IsWatched (completes q success true) t i = longpoll_complete-IsWatched q t i
    perform-IsWatched (completes q success false) t i =
        send_next-IsWatched success t.envelopes (forget_request q t) i
    perform-IsWatched (answers e q v) t i = transport_success-IsWatched e q v t i
    perform-IsWatched (errs e q reason) t i =
        Watches-IsWatched t (kind.on_error e q reason t).0 (keeps.failing e q reason t) i
    perform-IsWatched (fires d) t i = run_delayed-IsWatched d t i
    perform-IsWatched aborts t i =
        let aborted =
          abort_longpoll network t.longpoll_request (abort_requests network t.requests t) in
        Watches-IsWatched aborted (kind.reset aborted) (keeps.resetting aborted)
          (abort_longpoll-IsWatched t.longpoll_request _ (abort_requests-IsWatched t.requests t i))

    run-IsWatched :
        (es : List Event) (t : Transport W)
        → IsWatched a t
        → IsWatched a (run network kind settings advice es t)
    unfolding run
    run-IsWatched [] t i = i
    run-IsWatched (e ∷ es) t i = run-IsWatched es _ (perform-IsWatched e t i)

module _ {W : Type 0} (network : Network W) (kind : Kind W) (keeps : KeepsWatched kind)
    (settings : Settings) (advice : Object) where
  cleared-IsWatched :
      (r : Request) (t : Transport W)
      → r.id ≤ t.request_ids
      → IsWatched 0 t
      → IsWatched r.id (clear_request r t)
  unfolding clear_request
  cleared-IsWatched r t made i =
      (made, EachWatched-cleared 0 r.id t.request_ids t.timeouts t.timers i.1)

  passed_on-IsWatched :
      (e : Envelope) (r : Request) (v : Value) (answer : Answer) (t : Transport W)
      → r.id ≤ t.request_ids
      → (transport_success e r v t).1 ≡ some answer
      → IsWatched 0 t
      → IsWatched r.id (transport_success e r v t).0
  unfolding transport_success
  passed_on-IsWatched e r v answer t made passed i = elim (Bool-cases (has_id r.id t.expired)) [
    | inl late ↦ absurd (let none_passed : none ≡ some answer = rw late at passed in cc)
    | inr h ↦ rw h (cleared-IsWatched r t made i)
  ]

  -- On a transport that started without requests, of a kind whose own methods give no request a
  -- timeout, and after whatever happened: when a response to one of the requests made is passed on,
  -- no timeout of the request waits then, and none does after whatever happens next.
  pub success-NoTimeout :
      (es fs : List Event) (w : W) (e : Envelope) (r : Request) (v : Value) (answer : Answer)
      → r.id ≤ (run network kind settings advice es (new w)).request_ids
      → (transport_success e r v (run network kind settings advice es (new w))).1 ≡ some answer
      → NoTimeout r.id
          (run network kind settings advice fs
            (transport_success e r v (run network kind settings advice es (new w))).0).timers
  unfolding new
  success-NoTimeout es fs w e r v answer made passed =
      let t = run network kind settings advice es (new w) in
      let before =
        run-IsWatched 0 network kind keeps settings advice es (new w) (omega arith, tt) in
      let after =
        run-IsWatched r.id network kind keeps settings advice fs (transport_success e r v t).0
          (passed_on-IsWatched e r v answer t made passed before) in
      EachWatched-NoTimeout r.id _ _ _ after.1
