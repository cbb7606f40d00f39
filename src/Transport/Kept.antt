-- ===== src/Transport/Kept.antt =====
-- media/js/cometd.js, org.cometd.Transport: what becomes of every envelope, where requests may fail.
use vurs.Prelude.{
  ℕ, Option, none, some, Outcome, ok, thrown, unfinished, ◌-◌, Bool, true, false, Bool-cases, List,
  [], ◌∷◌, ◌++◌, ◌≡◌, refl, subst, inl, inr, length, ltb, map,
}
use vurs.Value.{Object}
use vurs.Client.State.{Envelope, Settings}
use vurs.Transport.State.{
  Request, Delayed, exceed, report, give_up, Timeout, Transport, Network, Kind,
}
use vurs.Transport.Requests.{
  queue_send, send_next, complete_request, forget_request, push_request, push_envelope, start,
  watch, set_timeout, count_request, next_request,
}
use vurs.Transport.Polling.{
  long_polling, callback_polling, long_polling_send, callback_polling_send, after_xhr, after_jsonp,
  keep_xhr, url_length,
}
use mathlib.Core.List.{
  Perm, perm_middle, perm_append_singleton, map-append, append_assoc, append-nil,
}
use mathlib.Core.List.Perm
use vurs.Transport.Bounds.{KeepsQueue, queue_send-free, queue_send-full}

abbrev add_failing : Delayed → List Envelope → List Envelope
add_failing (exceed e r) es = es
add_failing (report e r reason) es = e ∷ es
add_failing (give_up e r) es = e ∷ es

-- The envelopes whose failure is to be reported although no request for them is in flight, the last one
-- first: those that `_complete` took from the queue after a failure, and those that a kind of transport
-- did not send, as they are too long or their send threw.
abbrev pub failing : List Timeout → List Envelope
failing [] = []
failing (t ∷ ts) = add_failing t.task (failing ts)

module _ {W L : Type 0} (named : Envelope → L) (log : W → List L) where
  -- Where an envelope may be, under the name that the log has for it: sent, about to fail, or in the
  -- queue.
  abbrev pub accounted : Transport W → List L
  accounted t = log t.world ++ (map named (failing t.timers) ++ map (λ x. named x.0) t.envelopes)

  -- A kind of transport that logs each envelope that it sends, and reports the failure of each that it
  -- does not send.
  pub record Accounts (kind : Kind W) : Type 0 where
    pub send-accounted :
        (e : Envelope) (r : Request) (t : Transport W)
        → Perm
            (log (kind.transport_send e r t).world
              ++ map named (failing (kind.transport_send e r t).timers))
            (named e ∷ (log t.world ++ map named (failing t.timers)))

  -- A call of the binding that returns has sent the envelope, and one that throws has not.
  abbrev pub IsLogged : {A : Type 0} → Envelope → W → W × Outcome A → Type 0
  IsLogged e w (w', ok a) = log w' ≡ log w ++ named e ∷ []
  IsLogged e w (w', thrown x) = log w' ≡ log w
  IsLogged e w (w', unfinished) = ⊥

  pub record IsLogging (network : Network W) : Type 0 where
    pub xhr :
        (e : Envelope) (r : Request) (w : W)
        → IsLogged e w (network.xhr_send e.url (network.to_json e.messages) r w)
    pub jsonp :
        (e : Envelope) (r : Request) (w : W)
        → IsLogged e w (network.jsonp_send e.url (network.to_json e.messages) r w)

  sent_one : (x : L) (sent lost : List L) → Perm ((sent ++ x ∷ []) ++ lost) (x ∷ (sent ++ lost))
  sent_one x sent lost = rw (append_assoc sent (x ∷ []) lost) (perm_middle sent lost)

  module _ (network : Network W) (logging : IsLogging network) where
    after_xhr-accounted :
        (e : Envelope) (r : Request) (t : Transport W) (a : W × Outcome (Option ℕ))
        → IsLogged e t.world a
        → Perm
            (log (after_xhr e r t a).world ++ map named (failing (after_xhr e r t a).timers))
            (named e ∷ (log t.world ++ map named (failing t.timers)))
    unfolding after_xhr keep_xhr set_timeout
    after_xhr-accounted e r t (w, ok none) h =
        rw h (sent_one (named e) (log t.world) (map named (failing t.timers)))
    after_xhr-accounted e r t (w, ok (some x)) h =
        rw h (sent_one (named e) (log t.world) (map named (failing t.timers)))
    after_xhr-accounted e r t (w, thrown x) h = rw h (perm_middle (log t.world) _)
    after_xhr-accounted e r t (w, unfinished) h = absurd h

    after_jsonp-accounted :
        (e : Envelope) (r : Request) (t : Transport W) (a : W × Outcome (Unit {0}))
        → IsLogged e t.world a
        → Perm
            (log (after_jsonp e r t a).world ++ map named (failing (after_jsonp e r t a).timers))
            (named e ∷ (log t.world ++ map named (failing t.timers)))
    unfolding after_jsonp set_timeout
    after_jsonp-accounted e r t (w, ok x) h =
        rw h (sent_one (named e) (log t.world) (map named (failing t.timers)))
    after_jsonp-accounted e r t (w, thrown x) h = rw h (perm_middle (log t.world) _)
    after_jsonp-accounted e r t (w, unfinished) h = absurd h

    pub long_polling-Accounts : Accounts (long_polling network)
    unfolding long_polling long_polling_send
    long_polling-Accounts = record {
      send-accounted = λ e r t. after_xhr-accounted e r t _ (logging.xhr e r t.world);
    }

    pub callback_polling-Accounts : Accounts (callback_polling network)
    unfolding callback_polling callback_polling_send set_timeout
    callback_polling-Accounts = record {
      send-accounted = λ e r t. elim (Bool-cases (ltb 2000 (url_length network e))) [
        | inl long ↦ rw long (perm_middle (log t.world) _)
        | inr short ↦ rw short (after_jsonp-accounted e r t _ (logging.jsonp e r t.world))
      ];
    }

last_first :
    {L : Type 0} (x : L) (sent lost queue : List L)
    → Perm (sent ++ (lost ++ x ∷ queue)) (x ∷ (sent ++ (lost ++ queue)))
last_first x sent lost queue =
    Perm.trans (Perm.append_left sent (perm_middle lost queue)) (perm_middle sent _)

-- What is sent or about to fail, and then the queue.
in_front :
    {L : Type 0} (x : L) (front sent lost queue : List L)
    → Perm front (x ∷ (sent ++ lost))
    → Perm (front ++ queue) ((sent ++ (lost ++ queue)) ++ x ∷ [])
in_front x front sent lost queue p = Perm.trans (Perm.append_right queue p) (
    rw (append_assoc sent lost queue)
      (Perm.symm (perm_append_singleton x (sent ++ (lost ++ queue)))))

module _ {W : Type 0} (kind : Kind W) (settings : Settings) (advice : Object) where
  -- How a transport gets from one state to another by envelopes that it is given and by requests that
  -- succeed or fail, in whatever order, and the envelopes that it is given on the way.
  pub data Works (t : Transport W) : List Envelope → Transport W → Type 0 where
    idle : Works t [] t
    sends :
        {es : List Envelope} {u : Transport W} (e : Envelope)
        → Works t es u
        → Works t (es ++ e ∷ []) (queue_send kind settings advice e u)
    completes :
        {es : List Envelope} {u : Transport W} (r : Request) (success : Bool)
        → Works t es u
        → Works t es (complete_request kind settings advice r success u)

module _ {W L : Type 0} (kind : Kind W) (keeps : KeepsQueue kind) (settings : Settings)
    (advice : Object) (named : Envelope → L) (log : W → List L)
    (accounts : Accounts named log kind) where
  queue_send-accounted :
      (e : Envelope) (t : Transport W)
      → Perm
          (accounted named log (queue_send kind settings advice e t))
          (accounted named log t ++ named e ∷ [])
  unfolding push_request push_envelope start watch set_timeout count_request
  queue_send-accounted e t =
      elim (Bool-cases (ltb (length t.requests) (settings.max_connections - 1))) [
        | inl b ↦
            let r = next_request false t in
            let u = kind.transport_send e r (count_request t) in
            rw
              (
                queue_send-free kind keeps settings advice e t b,
                keeps.send-envelopes e r (count_request t),
                ← append_assoc (log u.world) (map named (failing u.timers)) _,
              )
              (in_front (named e) _ (log t.world) (map named (failing t.timers)) _
                (accounts.send-accounted e r (count_request t)))
        | inr b ↦
            rw
              (
                queue_send-full kind keeps settings advice e t b,
                map-append _ t.envelopes,
                append_assoc (log t.world) _ (named e ∷ []),
                append_assoc (map named (failing t.timers)) _ (named e ∷ []),
              )
              (Perm.refl _)
      ]

  send_next-accounted :
      (success : Bool) (es : List (Envelope × Request)) (t : Transport W)
      → t.envelopes ≡ es
      → Perm
          (accounted named log (send_next kind settings advice success es t))
          (accounted named log t)
  unfolding send_next set_timeout
  send_next-accounted success [] t same = Perm.refl _
  send_next-accounted true ((e, r) ∷ es) t same = rw same (
      Perm.trans (queue_send-accounted e (record t { envelopes = es })) (
        Perm.trans (perm_append_singleton (named e) _)
          (Perm.symm (last_first (named e) (log t.world) (map named (failing t.timers)) _))))
  send_next-accounted false ((e, r) ∷ es) t same =
      rw same
        (Perm.append_left (log t.world) (Perm.symm (perm_middle (map named (failing t.timers)) _)))

  Works-accounted :
      {t u : Transport W} {es : List Envelope}
      → Works kind settings advice t es u
      → Perm (accounted named log u) (accounted named log t ++ map named es)
  unfolding complete_request forget_request
  Works-accounted {t = t} idle = rw (append-nil (accounted named log t)) (Perm.refl _)
  Works-accounted {t = t} (sends {es = es} e steps) =
      rw (map-append named es, ← append_assoc (accounted named log t) (map named es) (named e ∷ []))
        (Perm.trans (queue_send-accounted e _)
          (Perm.append_right (named e ∷ []) (Works-accounted steps)))
  Works-accounted (completes r success steps) =
      Perm.trans (send_next-accounted success _ _ refl) (Works-accounted steps)

  -- A kind of transport that leaves the requests and the queue alone, logs each envelope that it sends
  -- and reports the failure of each that it does not send, in a state without a waiting envelope and
  -- without one that is about to fail: however many envelopes it is given, and whatever requests are
  -- completed as successful or failed, no timeout firing in between, the envelopes that were sent, those whose failure
  -- is to be reported although they were not sent, and those in the queue are, each as often, the
  -- ones sent before and the given ones, under the names that the log has for them. The long-polling and the
  -- callback-polling transport are of this kind where a call of the binding that returns is logged and one
  -- that throws is not.
  pub Works-perm :
      {t u : Transport W} {es : List Envelope}
      → t.envelopes ≡ []
      → failing t.timers ≡ []
      → Works kind settings advice t es u
      → Perm (accounted named log u) (log t.world ++ map named es)
  Works-perm {t = t} {u = u} {es = es} none_wait none_fail steps =
      let before : accounted named log t ≡ log t.world = rw (none_wait, none_fail) (append-nil _) in
      subst (λ x. Perm (accounted named log u) (x ++ map named es)) before (Works-accounted steps)
