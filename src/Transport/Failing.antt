-- ===== src/Transport/Failing.antt =====
-- media/js/cometd.js, org.cometd.Transport: requests that fail one after the other.
use vurs.Prelude.{
  ℕ, zero, suc, ◌+◌, true, false, List, [], ◌∷◌, ◌++◌, ◌≡◌, refl, sym, ap, length, take, drop, ◌∙◌,
  arith,
}
use vurs.Value.{Object}
use vurs.Client.State.{Envelope, Settings}
use vurs.Transport.State.{Request, give_up, Timeout, Transport, Kind}
use vurs.Transport.Requests.{send_next, complete_request, forget_request, set_timeout}
use vurs.Transport.Order.{in_flight, length-drop_in_flight}

module _ {ℓ} {A : Type ℓ} where
  drop_end :
      (n : ℕ) (xs : List A)
      → drop n xs ≡ []
      → (drop (suc n) xs ≡ []) × (take (suc n) xs ≡ take n xs)
  drop_end zero [] h = (refl, refl)
  drop_end zero (x ∷ xs) h = absurd (let e = ap length h in omega arith)
  drop_end (suc n) [] h = (refl, refl)
  drop_end (suc n) (x ∷ xs) h = let (a, b) = drop_end n xs h in (a, ap (◌∷◌ x) b)

  drop_next :
      (n : ℕ) (xs : List A) (y : A) (ys : List A)
      → drop n xs ≡ y ∷ ys
      → (drop (suc n) xs ≡ ys) × (take (suc n) xs ≡ take n xs ++ y ∷ [])
  drop_next zero [] y ys h = absurd (let e = ap length h in omega arith)
  drop_next zero (x ∷ xs) y ys h = ground arith
  drop_next (suc n) [] y ys h = absurd (let e = ap length h in omega arith)
  drop_next (suc n) (x ∷ xs) y ys h = let (a, b) = drop_next n xs y ys h in (a, ap (◌∷◌ x) b)

-- The timeouts that report the failure of the given envelopes at once, the last one first, in front of
-- those that waited before.
pub data Reports (before : List Timeout) : List (Envelope × Request) → List Timeout → Type 0 where
  none_more : Reports before [] before
  one_more :
      {es : List (Envelope × Request)} {now : List Timeout} (e : Envelope) (r : Request) (i : ℕ)
      → Reports before es now
      → Reports before (es ++ (e, r) ∷ []) (record { id = i; delay = 0; task = give_up e r } ∷ now)

module _ {W : Type 0} (kind : Kind W) (settings : Settings) (advice : Object) where
  -- How a transport gets from one state to another by requests that fail, `n` of them, in whatever
  -- order, and nothing else.
  pub data Fails (t : Transport W) : ℕ → Transport W → Type 0 where
    no_failure : Fails t 0 t
    next_failure :
        {n : ℕ} {u : Transport W} (r : Request)
        → in_flight r u.requests ≡ true
        → Fails t n u
        → Fails t (suc n) (complete_request kind settings advice r false u)

  -- What is known of a transport after `n` failures.
  pub record Failed (t : Transport W) (n : ℕ) (u : Transport W) : Type 0 where
    pub requests_left : n + length u.requests ≡ length t.requests
    pub envelopes_left : u.envelopes ≡ drop n t.envelopes
    pub reported : Reports t.timers (take n t.envelopes) u.timers
    pub nothing_sent : (u.world ≡ t.world) × (u.request_ids ≡ t.request_ids)

  fail_next :
      {t : Transport W} {n : ℕ} (u : Transport W) (r : Request) (es : List (Envelope × Request))
      → u.envelopes ≡ es
      → in_flight r u.requests ≡ true
      → Failed t n u
      → Failed t (suc n) (send_next kind settings advice false es (forget_request r u))
  unfolding send_next forget_request set_timeout
  fail_next {t = t} {n = n} u r [] same h f =
      let one = length-drop_in_flight r u.requests h in
      let (left, told) = drop_end n t.envelopes (sym f.envelopes_left ∙ same) in
      record {
        requests_left = (let l = f.requests_left in omega arith);
        envelopes_left = same ∙ sym left;
        reported = rw told f.reported;
        nothing_sent = f.nothing_sent;
      }
  fail_next {t = t} {n = n} u r ((e, q) ∷ es) same h f =
      let one = length-drop_in_flight r u.requests h in
      let (left, told) = drop_next n t.envelopes (e, q) es (sym f.envelopes_left ∙ same) in
      record {
        requests_left = (let l = f.requests_left in omega arith);
        envelopes_left = sym left;
        reported = rw told (one_more e q u.next_timer f.reported);
        nothing_sent = f.nothing_sent;
      }

  -- After `n` failures of requests in flight, in whatever order and with nothing else in between: `n`
  -- requests less are in flight, the queue has lost its first `n` envelopes, or all if it was shorter,
  -- a timeout was set for each of them, in order, that reports its failure at once, and nothing
  -- was sent.
  pub Fails-Failed : {t u : Transport W} {n : ℕ} → Fails t n u → Failed t n u
  unfolding complete_request
  Fails-Failed no_failure = record {
    requests_left = omega arith;
    envelopes_left = refl;
    reported = none_more;
    nothing_sent = (refl, refl);
  }
  Fails-Failed (next_failure {u = u} r h steps) =
      fail_next u r u.envelopes refl h (Fails-Failed steps)
