-- ===== src/Transport/Drain.antt =====
-- media/js/cometd.js, org.cometd.Transport: a transport whose requests are answered empties its queue.
use vurs.Prelude.{
  suc, ◌+◌, ◌-◌, ◌≤◌, ℕ, true, List, [], ◌∷◌, ◌++◌, ◌≡◌, ◌⊎◌, refl, sym, ap, inl, inr, length, ltb,
  arith, map, ◌∙◌,
}
use vurs.Value.{Object}
use vurs.Client.State.{Envelope, Settings}
use vurs.Transport.State.{Request, Transport, Kind}
use vurs.Transport.Requests.{drop_request, send_next, complete_request, forget_request}
use mathlib.Core.List.{append-nil}
use vurs.Transport.Bounds.{IsBounded, KeepsQueue, queue_send-requests, complete_request-IsBounded}
use vurs.Transport.Order.{
  in_flight, length-drop_in_flight, Logs, Serves, IsBusy, given, queue_send-sent, room,
  complete_request-given, complete_request-IsBusy, Serves-invariant,
}

-- The envelopes that were not answered yet, sent or not.
abbrev pub pending : {W : Type 0} → Transport W → ℕ
pending t = length t.requests + length t.envelopes

abbrev pub CanGoOn : {W : Type 0} → Transport W → Type 0
CanGoOn t = (r : Request) × (in_flight r t.requests ≡ true)

module _ {W : Type 0} (kind : Kind W) (settings : Settings) (advice : Object) where
  -- How a transport gets from one state to another by requests that succeed, `n` of them, in whatever
  -- order, and nothing else.
  pub data Finishes (t : Transport W) : ℕ → Transport W → Type 0 where
    done : Finishes t 0 t
    next :
        {n : ℕ} {u : Transport W} (r : Request)
        → in_flight r u.requests ≡ true
        → Finishes t n u
        → Finishes t (suc n) (complete_request kind settings advice r true u)

module _ {W : Type 0} (kind : Kind W) (keeps : KeepsQueue kind) (settings : Settings)
    (advice : Object) (log : W → List Envelope) (logs : Logs kind log) where
  send_next-pending :
      (es : List (Envelope × Request)) (t : Transport W)
      → t.envelopes ≡ es
      → ltb (length t.requests) (settings.max_connections - 1) ≡ true
      → pending (send_next kind settings advice true es t) ≡ length t.requests + length es
  unfolding send_next
  send_next-pending [] t same b = rw same refl
  send_next-pending ((e, r) ∷ es) t same b =
      let u = record t { envelopes = es } in
      let kept = ap length (queue_send-sent kind keeps settings advice log logs e u b).0 in
      let one = queue_send-requests kind keeps settings advice e u b in omega arith

  complete_request-pending :
      (r : Request) (t : Transport W)
      → in_flight r t.requests ≡ true
      → IsBounded settings t
      → suc (pending (complete_request kind settings advice r true t)) ≡ pending t
  unfolding complete_request forget_request
  complete_request-pending r t h bound =
      let one = length-drop_in_flight r t.requests h in
      let rest =
        send_next-pending t.envelopes (record t { requests = drop_request r t.requests }) refl
          (room kind keeps settings advice log logs r t h bound) in
      omega arith

  Finishes-invariant :
      {t u : Transport W} {n : ℕ}
      → IsBounded settings t
      → IsBusy settings t
      → Finishes kind settings advice t n u
      → IsBounded settings u
        × IsBusy settings u
        × (given log u ≡ given log t)
        × (n + pending u ≡ pending t)
  Finishes-invariant bound busy done = (bound, busy, refl, omega arith)
  Finishes-invariant bound busy (next {u = u} r h steps) =
      let (bound', busy', same, count) = Finishes-invariant bound busy steps in
      let one = complete_request-pending r u h bound' in
      (
        complete_request-IsBounded kind keeps settings advice r true u bound',
        complete_request-IsBusy kind keeps settings advice log logs r u h bound' busy',
        complete_request-given kind keeps settings advice log logs r u h bound' ∙ same,
        omega arith,
      )

  first_in_flight : (r : Request) (rs : List Request) → in_flight r (r ∷ rs) ≡ true
  unfolding in_flight
  first_in_flight r rs = ground arith

  -- While an envelope is unanswered, a request is in flight.
  progress :
      (t : Transport W) (rs : List Request)
      → t.requests ≡ rs
      → 2 ≤ settings.max_connections
      → IsBusy settings t
      → ((rs ≡ []) × (t.envelopes ≡ [])) ⊎ ((r : Request) × (in_flight r rs ≡ true))
  progress t (r ∷ rs) same many busy = inr (r, first_in_flight r rs)
  progress t [] same many (inl h) = inl (refl, h)
  progress t [] same many (inr h) = absurd (let none_sent = ap length same in omega arith)

  -- A kind of transport that leaves the requests and the queue alone and logs what it sends, with more
  -- connections than the one for the long poll, that was given some envelopes in a state without
  -- a request in flight and without a waiting envelope, all its requests succeeding: if its requests
  -- go on to succeed, in whatever order, each one leaves one envelope less to be answered, and either
  -- every envelope was sent, in order, and answered, or a request is still in flight.
  pub Finishes-pending :
      {t u v : Transport W} {es : List Envelope} {n : ℕ}
      → 2 ≤ settings.max_connections
      → t.requests ≡ []
      → t.envelopes ≡ []
      → Serves kind settings advice t es u
      → Finishes kind settings advice u n v
      → (n + pending v ≡ pending u)
        × (((pending v ≡ 0) × (log v.world ≡ log t.world ++ es)) ⊎ CanGoOn v)
  Finishes-pending {t = t} {v = v} {es = es} many none_sent none_wait steps finishing =
      let (bound, busy, gave) =
        Serves-invariant kind keeps settings advice log logs (rw none_sent (omega arith))
          (inl none_wait) steps in
      let (_, busy', same, count) = Finishes-invariant bound busy finishing in
      let before = ap (λ x. x ++ es) (append-nil (log t.world)) in
      (
        count,
        elim (progress v v.requests refl many busy') [
          | inr more ↦ inr more
          | inl (no_request, no_envelope) ↦ inl (
            (let a = ap length no_request in let b = ap length no_envelope in omega arith),
            (sym (append-nil (log v.world))
                ∙ ap (λ x. log v.world ++ map (λ y. y.0) x) (sym no_envelope)
                ∙ same
                ∙ gave
                ∙ rw none_wait before),
          )
        ],
      )
