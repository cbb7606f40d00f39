-- ===== src/Transport/Watched.antt =====
-- media/js/cometd.js, org.cometd.Transport: the timeouts of the requests that were answered.
pub mod Once
use vurs.Prelude.{
  ℕ, zero, suc, ◌-◌, ◌≤◌, ◌==◌, String, Bool, true, false, Bool-cases, Option, none, some,
  Option-cases, List, [], ◌∷◌, ◌≡◌, refl, sym, ap, ◌∙◌, ◌≢◌, not, inl, inr, ltb, length, arith,
  if◌then◌else◌, Outcome, ok, thrown, unfinished,
}
use vurs.Value.{Object, Value}
use vurs.Client.State.{Envelope, Settings}
use vurs.Transport.State.{
  Request, Answer, Delayed, Timeout, Transport, Network, Kind, exceed, report, give_up,
}
use vurs.Transport.Requests.{
  has_id, find_id, clear_timer, clear_known, clear_request, start, watch, set_timeout, next_request,
  count_request, transport_success, transport_failure, reset_requests,
}
use vurs.Transport.Polling.{
  long_polling, callback_polling, long_polling_send, callback_polling_send, after_xhr, after_jsonp,
  keep_xhr, reset_long_polling, long_polling_error, url_length,
}

-- A timeout that a request was given is the one that the request remembers, the request has one of the
-- `n` ids given so far, and it is not the request `a`.
abbrev pub WatchedOne : ℕ → ℕ → List (ℕ × ℕ) → ℕ → Delayed → Type 0
WatchedOne a n known id (exceed e q) =
    (find_id q.id known ≡ some id) × (q.id ≤ n) × ((q.id == a) ≡ false)
WatchedOne a n known id (report e q reason) = Unit {0}
WatchedOne a n known id (give_up e q) = Unit {0}

abbrev pub EachWatched : ℕ → ℕ → List (ℕ × ℕ) → List Timeout → Type 0
EachWatched a n known [] = Unit {0}
EachWatched a n known (t ∷ ts) = WatchedOne a n known t.id t.task × EachWatched a n known ts

EachWatched-clear_timer :
    (a n : ℕ) (known : List (ℕ × ℕ)) (i : ℕ) (ts : List Timeout)
    → EachWatched a n known ts
    → EachWatched a n known (clear_timer i ts)
unfolding clear_timer
EachWatched-clear_timer a n known i [] w = tt
EachWatched-clear_timer a n known i (t ∷ ts) w =
    let rest = EachWatched-clear_timer a n known i ts w.1 in
    elim (Bool-cases (t.id == i)) [ inl e ↦ rw e rest | inr e ↦ rw e (w.0, rest) ]

pub EachWatched-clear_known :
    (a n : ℕ) (known : List (ℕ × ℕ)) (i : Option ℕ) (ts : List Timeout)
    → EachWatched a n known ts
    → EachWatched a n known (clear_known i ts)
unfolding clear_known
EachWatched-clear_known a n known none ts w = w
EachWatched-clear_known a n known (some i) ts w = EachWatched-clear_timer a n known i ts w

WatchedOne-fresh :
    (a n : ℕ) (known : List (ℕ × ℕ)) (i id : ℕ) (d : Delayed)
    → WatchedOne a n known id d
    → WatchedOne a (suc n) ((suc n, i) ∷ known) id d
unfolding find_id
WatchedOne-fresh a n known i id (exceed e q) w = ground (arith, w.0, w.1, w.2)
WatchedOne-fresh a n known i id (report e q reason) w = tt
WatchedOne-fresh a n known i id (give_up e q) w = tt

-- A new request changes nothing for the others.
pub EachWatched-fresh :
    (a n : ℕ) (known : List (ℕ × ℕ)) (i : ℕ) (ts : List Timeout)
    → EachWatched a n known ts
    → EachWatched a (suc n) ((suc n, i) ∷ known) ts
EachWatched-fresh a n known i [] w = tt
EachWatched-fresh a n known i (t ∷ ts) w =
    (WatchedOne-fresh a n known i t.id t.task w.0, EachWatched-fresh a n known i ts w.1)

WatchedOne-later :
    (a n : ℕ) (known : List (ℕ × ℕ)) (id : ℕ) (d : Delayed)
    → WatchedOne a n known id d
    → WatchedOne a (suc n) known id d
WatchedOne-later a n known id (exceed e q) w = (w.0, omega (arith, w.1), w.2)
WatchedOne-later a n known id (report e q reason) w = tt
WatchedOne-later a n known id (give_up e q) w = tt

-- An id that is given to a request that is not sent yet.
pub EachWatched-later :
    (a n : ℕ) (known : List (ℕ × ℕ)) (ts : List Timeout)
    → EachWatched a n known ts
    → EachWatched a (suc n) known ts
EachWatched-later a n known [] w = tt
EachWatched-later a n known (t ∷ ts) w =
    (WatchedOne-later a n known t.id t.task w.0, EachWatched-later a n known ts w.1)

WatchedOne-other :
    (a b n : ℕ) (known : List (ℕ × ℕ)) (id : ℕ) (d : Delayed)
    → WatchedOne a n known id d
    → ((e : Envelope) (q : Request) → find_id q.id known ≡ some id → (q.id == b) ≡ false)
    → WatchedOne b n known id d
WatchedOne-other a b n known id (exceed e q) w other = (w.0, w.1, other e q w.0)
WatchedOne-other a b n known id (report e q reason) w other = tt
WatchedOne-other a b n known id (give_up e q) w other = tt

-- Two requests that remember different timeouts, or of which one remembers none, differ.
different :
    (b : ℕ) (o : Option ℕ) (known : List (ℕ × ℕ)) (q id : ℕ)
    → find_id b known ≡ o
    → o ≢ some id
    → find_id q known ≡ some id
    → (q == b) ≡ false
different b o known q id found other here = elim (Bool-cases (q == b)) [
  | inr e ↦ e
  | inl e ↦
      let q_is : q ≡ b = ground arith in
      absurd (other (sym found ∙ ap (λ k. find_id k known) (sym q_is) ∙ here))
]

EachWatched-forgotten :
    (a b n : ℕ) (known : List (ℕ × ℕ)) (ts : List Timeout)
    → find_id b known ≡ none
    → EachWatched a n known ts
    → EachWatched b n known ts
EachWatched-forgotten a b n known [] found w = tt
EachWatched-forgotten a b n known (t ∷ ts) found w = (
  WatchedOne-other a b n known t.id t.task w.0
      (λ e q here. different b none known q.id t.id found (λ h. cc) here),
  EachWatched-forgotten a b n known ts found w.1,
)

EachWatched-cleared_id :
    (a b n i : ℕ) (known : List (ℕ × ℕ)) (ts : List Timeout)
    → find_id b known ≡ some i
    → EachWatched a n known ts
    → EachWatched b n known (clear_timer i ts)
unfolding clear_timer
EachWatched-cleared_id a b n i known [] found w = tt
EachWatched-cleared_id a b n i known (t ∷ ts) found w =
    let rest = EachWatched-cleared_id a b n i known ts found w.1 in
    elim (Bool-cases (t.id == i)) [
      | inl e ↦ rw e rest
      | inr e ↦
          let apart : some i ≢ some t.id = λ h. absurd (ground arith) in
          rw e (
            WatchedOne-other a b n known t.id t.task w.0
                (λ f q here. different b (some i) known q.id t.id found apart here),
            rest,
          )
    ]

-- Once the timeout of a request is cleared, none is left for it.
pub EachWatched-cleared :
    (a b n : ℕ) (known : List (ℕ × ℕ)) (ts : List Timeout)
    → EachWatched a n known ts
    → EachWatched b n known (clear_known (find_id b known) ts)
unfolding clear_known
EachWatched-cleared a b n known ts w = elim (Option-cases (find_id b known)) [
  | inl e ↦ rw e (EachWatched-forgotten a b n known ts e w)
  | inr (i, e) ↦ rw e (EachWatched-cleared_id a b n i known ts e w)
]

-- A step that gives no request a timeout.
abbrev pub Watches : {W : Type 0} → Transport W → Transport W → Type 0
Watches t u =
    (u.request_ids ≡ t.request_ids)
    × (u.timeouts ≡ t.timeouts)
    × ((a n : ℕ) → EachWatched a n t.timeouts t.timers → EachWatched a n t.timeouts u.timers)

-- A kind of transport whose own methods give no request a timeout.
pub record KeepsWatched {W : Type 0} (kind : Kind W) : Type 0 where
  pub sending :
      (e : Envelope) (r : Request) (t : Transport W) → Watches t (kind.transport_send e r t)
  pub failing :
      (e : Envelope) (r : Request) (reason : String) (t : Transport W)
      → Watches t (kind.on_error e r reason t).0
  pub resetting : (t : Transport W) → Watches t (kind.reset t)

module _ {W : Type 0} where
  pub clear_request-Watches : (r : Request) (t : Transport W) → Watches t (clear_request r t)
  unfolding clear_request
  clear_request-Watches r t = (
    refl,
    refl,
    λ a n w. EachWatched-clear_known a n t.timeouts (find_id r.id t.timeouts) t.timers w,
  )

  pub transport_failure-Watches :
      (e : Envelope) (r : Request) (reason : String) (t : Transport W)
      → Watches t (transport_failure e r reason t).0
  unfolding transport_failure
  transport_failure-Watches e r reason t = elim (Bool-cases (not (has_id r.id t.expired))) [
    | inl h ↦ rw h (clear_request-Watches r t)
    | inr h ↦ rw h (refl, refl, λ a n w. w)
  ]

  after_xhr-Watches :
      (e : Envelope) (r : Request) (t : Transport W) (x : W × Outcome (Option ℕ))
      → Watches t (after_xhr e r t x)
  unfolding after_xhr keep_xhr set_timeout
  after_xhr-Watches e r t (w, ok none) = (refl, refl, λ a n h. h)
  after_xhr-Watches e r t (w, ok (some xhr)) = (refl, refl, λ a n h. h)
  after_xhr-Watches e r t (w, thrown x) = (refl, refl, λ a n h. (tt, h))
  after_xhr-Watches e r t (w, unfinished) = (refl, refl, λ a n h. h)

  after_jsonp-Watches :
      (e : Envelope) (r : Request) (t : Transport W) (x : W × Outcome (Unit {0}))
      → Watches t (after_jsonp e r t x)
  unfolding after_jsonp set_timeout
  after_jsonp-Watches e r t (w, ok x) = (refl, refl, λ a n h. h)
  after_jsonp-Watches e r t (w, thrown x) = (refl, refl, λ a n h. (tt, h))
  after_jsonp-Watches e r t (w, unfinished) = (refl, refl, λ a n h. h)

  module _ (network : Network W) where
    callback_polling_send-Watches :
        (e : Envelope) (r : Request) (t : Transport W)
        → Watches t (callback_polling_send network e r t)
    unfolding callback_polling_send set_timeout
    callback_polling_send-Watches e r t = elim (Bool-cases (ltb 2000 (url_length network e))) [
      | inl h ↦ rw h (refl, refl, λ a n w. (tt, w))
      | inr h ↦ rw h (after_jsonp-Watches e r t _)
    ]

    pub callback_polling-KeepsWatched : KeepsWatched (callback_polling network)
    unfolding callback_polling reset_requests
    callback_polling-KeepsWatched = record {
      sending = callback_polling_send-Watches;
      failing = transport_failure-Watches;
      resetting = λ t. (refl, refl, λ a n w. w);
    }

    pub long_polling-KeepsWatched : KeepsWatched (long_polling network)
    unfolding long_polling long_polling_send long_polling_error reset_long_polling reset_requests
    long_polling-KeepsWatched = record {
      sending = λ e r t. after_xhr-Watches e r t _;
      failing = λ e r reason t.
          transport_failure-Watches e r reason (record t { supports_cross_domain = false });
      resetting = λ t. (refl, refl, λ a n w. w);
    }
