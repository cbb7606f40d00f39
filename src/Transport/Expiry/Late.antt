-- ===== src/Transport/Expiry/Late.antt =====
-- media/js/cometd.js, org.cometd.Transport: what comes back for a request whose timeout has fired.
use vurs.Prelude.{
  ℕ, ◌≤◌, String, Bool, true, false, Option, none, some, List, [], ◌∷◌, ◌≡◌, refl, arith,
}
use vurs.Value.{Object, Value}
use vurs.Client.State.{Envelope, Settings}
use vurs.Transport.State.{Request, Delayed, Transport, Network, Kind, exceed, report, give_up}
use vurs.Transport.Requests.{
  Event, sends, completes, answers, errs, fires, aborts, perform, run, has_id, complete_request,
  forget_request, longpoll_complete, send, complete, transport_success, abort, abort_requests,
  abort_longpoll, abort_xhr, run_delayed, find_id,
}
use vurs.Transport.Expiry.{
  KeepsExpired, IsExpired, queue_send-IsExpired, send_next-IsExpired, longpoll_send-IsExpired,
  transport_failure-IsExpired, transport_success-IsExpired,
}

module _ {W : Type 0} (network : Network W) (kind : Kind W) (keeps : KeepsExpired kind)
    (settings : Settings) (advice : Object) (r : Request) where
  abort_xhr-IsExpired :
      (xhr : Option ℕ) (t : Transport W) → IsExpired r t → IsExpired r (abort_xhr network xhr t)
  unfolding abort_xhr
  abort_xhr-IsExpired none t i = i
  abort_xhr-IsExpired (some xhr) t i = i

  abort_requests-IsExpired :
      (qs : List Request) (t : Transport W)
      → IsExpired r t
      → IsExpired r (abort_requests network qs t)
  unfolding abort_requests
  abort_requests-IsExpired [] t i = i
  abort_requests-IsExpired (q ∷ qs) t i =
      abort_requests-IsExpired qs _ (abort_xhr-IsExpired (find_id q.id t.xhrs) t i)

  abort_longpoll-IsExpired :
      (q : Option Request) (t : Transport W)
      → IsExpired r t
      → IsExpired r (abort_longpoll network q t)
  unfolding abort_longpoll
  abort_longpoll-IsExpired none t i = i
  abort_longpoll-IsExpired (some q) t i = abort_xhr-IsExpired (find_id q.id t.xhrs) t i

  run_delayed-IsExpired :
      (d : Delayed) (t : Transport W) → IsExpired r t → IsExpired r (run_delayed network d t).0
  unfolding run_delayed has_id
  run_delayed-IsExpired (exceed e q) t i =
      abort_xhr-IsExpired (find_id q.id t.xhrs) (record t { expired = q.id ∷ t.expired })
        (ground arith, i.1)
  run_delayed-IsExpired (report e q reason) t i =
      transport_failure-IsExpired kind keeps settings advice r e q reason t i
  run_delayed-IsExpired (give_up e q) t i = i

  longpoll_complete-IsExpired :
      (q : Request) (t : Transport W) → IsExpired r t → IsExpired r (longpoll_complete q t).0
  unfolding longpoll_complete
  longpoll_complete-IsExpired q t i = ground arith

  same-IsExpired :
      (t u : Transport W)
      → (u.expired ≡ t.expired) × (u.request_ids ≡ t.request_ids)
      → IsExpired r t
      → IsExpired r u
  same-IsExpired t u same i = rw (same.0, same.1) i

  perform-IsExpired :
      (e : Event) (t : Transport W)
      → IsExpired r t
      → IsExpired r (perform network kind settings advice e t)
  unfolding perform send complete complete_request forget_request abort
  perform-IsExpired (sends e true) t i = longpoll_send-IsExpired kind keeps settings advice r e t i
  perform-IsExpired (sends e false) t i = queue_send-IsExpired kind keeps settings advice r e t i
  perform-IsExpired (completes q success true) t i = longpoll_complete-IsExpired q t i
  perform-IsExpired (completes q success false) t i =
      send_next-IsExpired kind keeps settings advice r success t.envelopes (forget_request q t) i
  perform-IsExpired (answers e q v) t i =
      transport_success-IsExpired kind keeps settings advice r e q v t i
  perform-IsExpired (errs e q reason) t i =
      same-IsExpired t (kind.on_error e q reason t).0 (keeps.failing e q reason t) i
  perform-IsExpired (fires d) t i = run_delayed-IsExpired d t i
  perform-IsExpired aborts t i =
      let aborted =
        abort_longpoll network t.longpoll_request (abort_requests network t.requests t) in
      same-IsExpired aborted (kind.reset aborted) (keeps.resetting aborted)
        (abort_longpoll-IsExpired t.longpoll_request _ (abort_requests-IsExpired t.requests t i))

  run-IsExpired :
      (es : List Event) (t : Transport W)
      → IsExpired r t
      → IsExpired r (run network kind settings advice es t)
  unfolding run
  run-IsExpired [] t i = i
  run-IsExpired (e ∷ es) t i = run-IsExpired es _ (perform-IsExpired e t i)

  -- A request that the transport has made and whose timeout fires is given up for good, on a kind of
  -- transport whose own methods mark no request as expired or not and number none, and which, when
  -- an error of an expired request is reported, passes nothing on and changes at most whether it is used
  -- for another domain, as both the long-polling and the callback-polling transport do. Whatever happens after the timeout: a response of the request is not
  -- passed on and changes nothing, and an error that is reported of it is not passed on and changes
  -- nothing but, at most, whether the transport is used for another domain.
  pub late-answers :
      (e : Envelope) (t : Transport W) (es : List Event)
      → r.id ≤ t.request_ids
      → let u = run network kind settings advice es (run_delayed network (exceed e r) t).0 in
        ((v : Value) → transport_success e r v u ≡ (u, none))
        × ((reason : String)
            → (c : Bool) × (kind.on_error e r reason u
                ≡ (record u { supports_cross_domain = c }, none)))
  unfolding transport_success run_delayed has_id
  late-answers e t es made =
      let fired : IsExpired r (run_delayed network (exceed e r) t).0 =
        abort_xhr-IsExpired (find_id r.id t.xhrs) (record t { expired = r.id ∷ t.expired })
          (ground arith, made) in
      let late = run-IsExpired es (run_delayed network (exceed e r) t).0 fired in
      (λ v. rw (late.0) refl, λ reason. keeps.late e r reason _ late.0)
