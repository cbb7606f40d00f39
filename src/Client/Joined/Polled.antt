-- ===== src/Client/Joined/Polled.antt =====
-- media/js/cometd.js: a client's transport as the one of its connects.
use vurs.Prelude.{
  ℕ, suc, String, Bool, true, Option, none, some, List, [], ◌∷◌, ◌++◌, ◌==◌, ◌≡◌, refl, ap, ◌∙◌,
  arith, Outcome, ok,
}
use vurs.Value.{Object, str}
use vurs.Client.State.{Envelope, Settings, Host}
use vurs.Transport.State.{Request, Transport, Network, Kind}
use vurs.Transport.Requests.{
  longpoll_send, longpoll_complete, send, complete, start, watch, set_timeout, count_request,
  next_request,
}
use vurs.Transport.Polling.{long_polling, long_polling_send, after_xhr, keep_xhr}
use vurs.Client.Joined.{World, call_one, type_value, with_transports}
use vurs.Client.Polls.Quiet.{IsAloof}
use vurs.Client.Polls.Line.{Line}

-- A kind of transport whose sends leave the long poll, the numbering and the type alone, and are logged.
pub record KeepsLongpoll {V : Type 0} (kind : Kind V) (log : V → List Envelope) : Type 0 where
  pub send-longpoll :
      (e : Envelope) (r : Request) (t : Transport V)
      → (kind.transport_send e r t).longpoll_request ≡ t.longpoll_request
  pub send-ids :
      (e : Envelope) (r : Request) (t : Transport V)
      → (kind.transport_send e r t).request_ids ≡ t.request_ids
  pub send-type :
      (e : Envelope) (r : Request) (t : Transport V) → (kind.transport_send e r t).type ≡ t.type
  pub send-log :
      (e : Envelope) (r : Request) (t : Transport V)
      → log (kind.transport_send e r t).world ≡ log t.world ++ e ∷ []

-- The long-polling transport is of this kind, where what it hands to the binding is logged.
pub long_polling-KeepsLongpoll :
    {V : Type 0} (network : Network V) (log : V → List Envelope)
    → ((e : Envelope) (r : Request) (v : V)
        → log (network.xhr_send e.url (network.to_json e.messages) r v).0 ≡ log v ++ e ∷ [])
    → KeepsLongpoll (long_polling network) log
unfolding long_polling long_polling_send after_xhr keep_xhr set_timeout
long_polling-KeepsLongpoll network log logs = record {
  send-longpoll = λ e r t. ground arith;
  send-ids = λ e r t. ground arith;
  send-type = λ e r t. ground arith;
  send-log = λ e r t. ground (arith, logs e r t.world);
}

-- What the client's connects depend on in a transport.
pub record Use : Type 0 where
  pub longpoll_request : Option Request
  pub request_ids : ℕ
  pub type : Option String
  pub log : List Envelope

abbrev pub use_of : {V : Type 0} → (V → List Envelope) → Transport V → Use
use_of log t = record {
  longpoll_request = t.longpoll_request;
  request_ids = t.request_ids;
  type = t.type;
  log = log t.world;
}

module _ {V : Type 0} (kind : Kind V) (log : V → List Envelope) (keeps : KeepsLongpoll kind log)
    (settings : Settings) (advice : Object) where
  send-free :
      (e : Envelope) (t : Transport V)
      → t.longpoll_request ≡ none
      → send kind settings advice e true t ≡ (
        record (start kind settings advice e (next_request true t) (count_request t)) {
          longpoll_request = some (next_request true t);
        },
        ok tt,
      )
  unfolding send longpoll_send
  send-free e t free = rw free refl

  start-use :
      (e : Envelope) (t : Transport V)
      → use_of log (record (start kind settings advice e (next_request true t) (count_request t)) {
        longpoll_request = some (next_request true t);
      })
        ≡ record {
          longpoll_request = some (next_request true t);
          request_ids = suc t.request_ids;
          type = t.type;
          log = log t.world ++ e ∷ [];
        }
  unfolding start watch set_timeout count_request
  start-use e t =
      let r = next_request true t in
      let u = count_request t in
      rw (keeps.send-ids e r u, keeps.send-type e r u, keeps.send-log e r u) refl

  complete-flying :
      (q : Request) (r : ℕ) (success : Bool) (t : Transport V)
      → t.longpoll_request ≡ some q
      → q.id ≡ r
      → complete kind settings advice (record { id = r; longpoll = true }) success true t
        ≡ (record t { longpoll_request = none }, ok tt)
  unfolding complete longpoll_complete
  complete-flying q r success t flying same =
      let found : (q.id == r) ≡ true = ground arith in rw (flying, found) refl

-- No long poll is in flight on a transport of the type, or the one with the given number is.
abbrev pub IsFree : String → Use → Type 0
IsFree type v = (v.longpoll_request ≡ none) × (v.type ≡ some type)

abbrev pub IsFlying : String → ℕ → Use → Type 0
IsFlying type r v =
    ((q : Request) × (v.longpoll_request ≡ some q) × (q.id ≡ r)) × (v.type ≡ some type)

call_one_at :
    {V : Type 0} (n : ℕ) (f : Transport V → Transport V × Outcome (Unit {0})) (w : World V)
    → (call_one n f w).0 n ≡ (f (w n)).0
unfolding call_one
call_one_at n f w = let same : (n == n) ≡ true = ground arith in rw same refl

call_one_result :
    {V : Type 0} (n : ℕ) (f : Transport V → Transport V × Outcome (Unit {0})) (w : World V)
    → (call_one n f w).1 ≡ (f (w n)).1
unfolding call_one
call_one_result n f w = refl

module _ {V : Type 0} (network : Network V) (kinds : ℕ → Kind V) (log : V → List Envelope)
    (page : Host (World V)) (t : ℕ) (keeps : KeepsLongpoll (kinds t) log) (type : String) where
  abbrev pub joined : Host (World V)
  joined = with_transports network kinds page

  abbrev pub view : World V → Use
  view w = use_of log (w t)

  pub typed_joined : (w : World V) → IsFree type (view w) → joined.get_type w t ≡ str type
  unfolding with_transports
  typed_joined w free = ap type_value free.1

  pub sends_joined :
      (e : Envelope) (settings : Settings) (advice : Object) (w : World V)
      → IsFree type (view w)
      → (joined.send t e true settings advice w).1 ≡ ok tt
  unfolding with_transports
  sends_joined e settings advice w free =
      call_one_result t (send (kinds t) settings advice e true) w
      ∙ ap (λ x. x.1) (send-free (kinds t) log keeps settings advice e (w t) free.0)

  pub sent_joined :
      (e : Envelope) (settings : Settings) (advice : Object) (w : World V)
      → IsFree type (view w)
      → let v = view (joined.send t e true settings advice w).0 in
        IsFlying type (suc (view w).request_ids) v
        × (suc v.request_ids ≡ suc (suc (view w).request_ids))
        × (v.log ≡ (view w).log ++ e ∷ [])
  unfolding with_transports next_request
  sent_joined e settings advice w free =
      let now =
        ap (use_of log) (call_one_at t (send (kinds t) settings advice e true) w)
        ∙ ap (λ x. use_of log x.0) (send-free (kinds t) log keeps settings advice e (w t) free.0)
        ∙ start-use (kinds t) log keeps settings advice e (w t) in
      (
        (
          (next_request true (w t), ap (λ v. v.longpoll_request) now, refl),
          ap (λ v. v.type) now ∙ free.1,
        ),
        ap (λ v. suc v.request_ids) now,
        ap (λ v. v.log) now,
      )

  pub completes_joined :
      (r : ℕ) (success : Bool) (settings : Settings) (advice : Object) (w : World V)
      → IsFlying type r (view w)
      → (joined.complete t r success true settings advice w).1 ≡ ok tt
  unfolding with_transports
  completes_joined r success settings advice w ((q, flying, same), _) =
      call_one_result t
        (complete (kinds t) settings advice (record { id = r; longpoll = true }) success true) w
      ∙ ap (λ x. x.1)
          (complete-flying (kinds t) log keeps settings advice q r success (w t) flying same)

  pub completed_joined :
      (r : ℕ) (success : Bool) (settings : Settings) (advice : Object) (w : World V)
      → IsFlying type r (view w)
      → let v = view (joined.complete t r success true settings advice w).0 in
        IsFree type v × (suc v.request_ids ≡ suc (view w).request_ids) × (v.log ≡ (view w).log)
  unfolding with_transports
  completed_joined r success settings advice w ((q, flying, same), typed) =
      let now =
        ap (use_of log) (
          call_one_at t
            (complete (kinds t) settings advice (record { id = r; longpoll = true }) success true)
            w)
        ∙ ap (λ x. use_of log x.0)
            (complete-flying (kinds t) log keeps settings advice q r success (w t) flying same) in
      (
        (ap (λ v. v.longpoll_request) now, ap (λ v. v.type) now ∙ typed),
        ap (λ v. suc v.request_ids) now,
        ap (λ v. v.log) now,
      )

  pub aloof_joined : IsAloof page view → IsAloof joined view
  unfolding with_transports
  aloof_joined aloof = record {
    listened = aloof.listened;
    alone = aloof.alone;
    same_log = aloof.same_log;
    returns = aloof.returns;
  }

  -- A transport with the methods of org.cometd.Transport is one that a client's connects can rely on, where
  -- the page's listeners return or throw and leave the client and the use of the transport alone.
  abbrev pub with_transports-Line : IsAloof page view → Line joined t (str type) view
  with_transports-Line aloof = record {
    Free = IsFree type;
    Flying = IsFlying type;
    next = λ v. suc v.request_ids;
    log = λ v. v.log;
    aloof = aloof_joined aloof;
    typed = typed_joined;
    sends = sends_joined;
    sent = sent_joined;
    completes = completes_joined;
    completed = completed_joined;
  }
