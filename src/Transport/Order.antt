-- ===== src/Transport/Order.antt =====
-- media/js/cometd.js, org.cometd.Transport: the order in which its envelopes are sent.
use vurs.Prelude.{
  suc, ◌-◌, ◌≤◌, ◌==◌, Bool, true, false, Bool-cases, List, [], ◌∷◌, ◌++◌, ◌≡◌, ◌⊎◌, refl, sym, ap,
  inl, inr, length, ltb, arith, map, ◌∙◌, if◌then◌else◌,
}
use vurs.Value.{Object}
use vurs.Client.State.{Envelope, Settings}
use vurs.Transport.State.{Request, Transport, Kind}
use vurs.Transport.Requests.{
  drop_request, queue_send, send_next, complete_request, forget_request, push_request,
  push_envelope, start, watch, set_timeout, count_request,
}
use mathlib.Core.Bool.{false≢true}
use mathlib.Core.List.{map-append, append_assoc, append-nil}
use vurs.Transport.Bounds.{
  IsBounded, queue_send-IsBounded, complete_request-IsBounded, KeepsQueue, queue_send-free,
  queue_send-full, queue_send-requests,
}

-- `_inArray(request, _requests) >= 0`
unfoldable pub in_flight : Request → List Request → Bool
in_flight r [] = false
in_flight r (q ∷ qs) = if r.id == q.id then true else in_flight r qs

pub length-drop_in_flight :
    (r : Request) (rs : List Request)
    → in_flight r rs ≡ true
    → suc (length (drop_request r rs)) ≡ length rs
unfolding drop_request in_flight
length-drop_in_flight r [] h = absurd (false≢true h)
length-drop_in_flight r (q ∷ qs) h = elim (Bool-cases (r.id == q.id)) [
  | inl e ↦ rw e refl
  | inr e ↦ rw e (ap suc (length-drop_in_flight r qs (rw e at h)))
]

-- A kind of transport whose sends are logged: `log` lists the envelopes that were sent, the last one
-- at the end.
pub record Logs {W : Type 0} (kind : Kind W) (log : W → List Envelope) : Type 0 where
  pub send-log :
      (e : Envelope) (r : Request) (t : Transport W)
      → log (kind.transport_send e r t).world ≡ log t.world ++ e ∷ []

module _ {W : Type 0} (kind : Kind W) (settings : Settings) (advice : Object) where
  -- How a transport gets from one state to another while every request succeeds, and the envelopes
  -- that it is given on the way.
  pub data Serves (t : Transport W) : List Envelope → Transport W → Type 0 where
    idle : Serves t [] t
    sends :
        {es : List Envelope} {u : Transport W} (e : Envelope)
        → Serves t es u
        → Serves t (es ++ e ∷ []) (queue_send kind settings advice e u)
    completes :
        {es : List Envelope} {u : Transport W} (r : Request)
        → in_flight r u.requests ≡ true
        → Serves t es u
        → Serves t es (complete_request kind settings advice r true u)

-- An envelope waits only while all connections are in use.
abbrev pub IsBusy : {W : Type 0} → Settings → Transport W → Type 0
IsBusy settings t = (t.envelopes ≡ []) ⊎ (settings.max_connections - 1 ≤ length t.requests)

-- The envelopes that were sent, then those that wait, in order.
abbrev pub given : {W : Type 0} → (W → List Envelope) → Transport W → List Envelope
given log t = log t.world ++ map (λ x. x.0) t.envelopes

module _ {W : Type 0} (kind : Kind W) (keeps : KeepsQueue kind) (settings : Settings)
    (advice : Object) (log : W → List Envelope) (logs : Logs kind log) where
  -- A send while a connection is free.
  pub queue_send-sent :
      (e : Envelope) (t : Transport W)
      → ltb (length t.requests) (settings.max_connections - 1) ≡ true
      → ((queue_send kind settings advice e t).envelopes ≡ t.envelopes)
        × (log (queue_send kind settings advice e t).world ≡ log t.world ++ e ∷ [])
  unfolding push_request start watch set_timeout count_request
  queue_send-sent e t b =
      rw (queue_send-free kind keeps settings advice e t b)
        (keeps.send-envelopes e _ _, logs.send-log e _ _)

  queue_send-given :
      (e : Envelope) (t : Transport W)
      → IsBusy settings t
      → given log (queue_send kind settings advice e t) ≡ given log t ++ e ∷ []
  unfolding push_envelope count_request
  queue_send-given e t busy =
      elim (Bool-cases (ltb (length t.requests) (settings.max_connections - 1))) [
        | inl b ↦
            let (same, sent) = queue_send-sent e t b in
            let empty : t.envelopes ≡ [] = elim busy [ inl h ↦ h | inr h ↦ ground arith ] in
            rw (same, sent, empty, append-nil (log t.world)) (append-nil _)
        | inr b ↦
            rw (queue_send-full kind keeps settings advice e t b, map-append _ t.envelopes)
              (sym (append_assoc (log t.world) _ _))
      ]

  queue_send-IsBusy :
      (e : Envelope) (t : Transport W)
      → IsBusy settings t
      → IsBusy settings (queue_send kind settings advice e t)
  unfolding push_envelope count_request
  queue_send-IsBusy e t busy =
      elim (Bool-cases (ltb (length t.requests) (settings.max_connections - 1))) [
        | inl b ↦
            let empty : t.envelopes ≡ [] = elim busy [ inl h ↦ h | inr h ↦ ground arith ] in
            inl ((queue_send-sent e t b).0 ∙ empty)
        | inr b ↦ rw (queue_send-full kind keeps settings advice e t b) (inr (ground arith))
      ]

  send_next-given :
      (es : List (Envelope × Request)) (t : Transport W)
      → t.envelopes ≡ es
      → ltb (length t.requests) (settings.max_connections - 1) ≡ true
      → given log (send_next kind settings advice true es t) ≡ log t.world ++ map (λ x. x.0) es
  unfolding send_next
  send_next-given [] t same b = rw same refl
  send_next-given ((e, r) ∷ es) t same b =
      let (envelopes, sent) = queue_send-sent e (record t { envelopes = es }) b in
      rw (envelopes, sent) (append_assoc (log t.world) _ _)

  send_next-IsBusy :
      (es : List (Envelope × Request)) (t : Transport W)
      → t.envelopes ≡ es
      → ltb (length t.requests) (settings.max_connections - 1) ≡ true
      → settings.max_connections - 1 ≤ suc (length t.requests)
      → IsBusy settings (send_next kind settings advice true es t)
  unfolding send_next
  send_next-IsBusy [] t same b h = inl same
  send_next-IsBusy ((e, r) ∷ es) t same b h =
      inr (rw (queue_send-requests kind keeps settings advice e (record t { envelopes = es }) b) h)

  -- A request in flight that completes makes room for one more.
  pub room :
      (r : Request) (t : Transport W)
      → in_flight r t.requests ≡ true
      → IsBounded settings t
      → ltb (length (drop_request r t.requests)) (settings.max_connections - 1) ≡ true
  room r t h bound = let d = length-drop_in_flight r t.requests h in ground arith

  pub complete_request-given :
      (r : Request) (t : Transport W)
      → in_flight r t.requests ≡ true
      → IsBounded settings t
      → given log (complete_request kind settings advice r true t) ≡ given log t
  unfolding complete_request forget_request
  complete_request-given r t h bound =
      send_next-given t.envelopes (record t { requests = drop_request r t.requests }) refl
        (room r t h bound)

  pub complete_request-IsBusy :
      (r : Request) (t : Transport W)
      → in_flight r t.requests ≡ true
      → IsBounded settings t
      → IsBusy settings t
      → IsBusy settings (complete_request kind settings advice r true t)
  unfolding complete_request forget_request
  complete_request-IsBusy r t h bound (inr full) =
      let d = length-drop_in_flight r t.requests h in
      send_next-IsBusy t.envelopes (record t { requests = drop_request r t.requests }) refl
        (room r t h bound) (omega arith)
  complete_request-IsBusy r t h bound (inl empty) = rw (empty) (inl refl)

  pub Serves-invariant :
      {t u : Transport W} {es : List Envelope}
      → IsBounded settings t
      → IsBusy settings t
      → Serves kind settings advice t es u
      → IsBounded settings u × IsBusy settings u × (given log u ≡ given log t ++ es)
  Serves-invariant bound busy idle = (bound, busy, sym (append-nil _))
  Serves-invariant {t = t} bound busy (sends e steps) =
      let (bound', busy', same) = Serves-invariant bound busy steps in
      (
        queue_send-IsBounded kind keeps settings advice e _ bound',
        queue_send-IsBusy e _ busy',
        queue_send-given e _ busy' ∙ rw same (append_assoc (given log t) _ (e ∷ [])),
      )
  Serves-invariant bound busy (completes r h steps) =
      let (bound', busy', same) = Serves-invariant bound busy steps in
      (
        complete_request-IsBounded kind keeps settings advice r true _ bound',
        complete_request-IsBusy r _ h bound' busy',
        complete_request-given r _ h bound' ∙ same,
      )

  -- A kind of transport that leaves the requests and the queue alone and logs what it sends, in a
  -- state without a request in flight and without a waiting envelope, while every request that
  -- completes succeeds and was in flight: the envelopes sent before, then the given ones, are those that
  -- are sent now, then those that still wait, in order. And an envelope waits only while all the
  -- connections that are not for the long poll are in use.
  pub sends-order :
      {t u : Transport W} {es : List Envelope}
      → t.requests ≡ []
      → t.envelopes ≡ []
      → Serves kind settings advice t es u
      → (given log u ≡ log t.world ++ es) × IsBusy settings u
  sends-order {t = t} {es = es} none_sent none_wait steps =
      let (bound, busy, same) =
        Serves-invariant (rw none_sent (omega arith)) (inl none_wait) steps in
      (same ∙ rw none_wait (ap (λ x. x ++ es) (append-nil (log t.world))), busy)
