-- ===== src/Client/Joined/Failing.antt =====
-- media/js/cometd.js: the connects of a client on its transport, when they fail one after the other.
use vurs.Prelude.{
  ℕ, suc, ◌+◌, ◌*◌, ◌≤◌, ◌<◌, String, Option, none, some, false, List, [], ◌∷◌, ◌++◌, ◌≡◌, refl,
  sym, ap, ◌∙◌, length, Outcome, arith, subst,
}
use mathlib.Core.List.{append-nil}
use native.Mathlib.Nat.{add-zero, zero-add}
use vurs.Value.{Value, str, get}
use vurs.Listeners.{Argument}
use vurs.Client.State.{Client, Envelope, Host, run_connect}
use vurs.Client.Sending.{is_disconnected, interval_of}
use vurs.Client.Events.{run}
use vurs.Client.Sound.{IsSingle}
use vurs.Client.Retry.{connect_timer}
use vurs.Transport.State.{Network, Kind}
use vurs.Client.Joined.{World}
use vurs.Client.Joined.Polled.{KeepsLongpoll, joined, view, with_transports-Line}
use vurs.Client.Polls.Quiet.{IsAloof}
use vurs.Client.Polls.Line.{Line}
use vurs.Client.Polls.Cycle
use vurs.Client.Polls.Cycle.{IsReady}
use vurs.Client.Polls.Failed.{Failure, AllConnects, failures}
use vurs.Client.Polls.Persists.{Persists, run-Persists}

module _ {W V : Type 0} (host : Host W) (t : ℕ) (type : Value) (view' : W → V)
    (line : Line host t type view') where
  -- Before the first failure.
  ready-Persists :
      (id : ℕ) (s : Client W)
      → IsReady host t id s
      → IsSingle s
      → line.Free (view' s.world)
      → Persists host t type view' line 0 id s s
  unfolding Cycle.connects
  ready-Persists id s ready single free = record {
    waits = record {
      same_settings = refl;
      same_advice = refl;
      live = ready.live;
      single = single;
      grown = λ h. let start = ready.backoff in omega arith;
      capped = let start = ready.backoff in omega arith;
    };
    used = ready.used;
    plain = ready.plain;
    short = ready.short;
    next_timer = ready.next;
    timers =
        ready.waits
        ∙ ap (λ d. connect_timer id d ∷ [])
            (sym (zero-add _)
              ∙ ap (λ b. b + interval_of (get "interval" s.advice)) (sym ready.backoff));
    same_client_id = refl;
    counted = sym (add-zero s.message_id);
    free = free;
    next = sym (add-zero (line.next (view' s.world)));
    logged = sym (append-nil (line.log (view' s.world)));
  }

module _ {V : Type 0} (network : Network V) (kinds : ℕ → Kind V) (log : V → List Envelope)
    (page : Host (World V)) (t : ℕ) (keeps : KeepsLongpoll (kinds t) log) (type : String)
    (aloof : IsAloof page (view network kinds log page t keeps type))
    (method_of : Argument → String → Option ℕ) (parse : String → Outcome Value) where
  persists :
      (fs : List Failure) (id : ℕ) (s : Client (World V))
      → IsReady (joined network kinds log page t keeps type) t id s
      → IsSingle s
      → (s.world t).longpoll_request ≡ none
      → (s.world t).type ≡ some type
      → AllConnects fs
      → let host = joined network kinds log page t keeps type in
        Persists host t
          (str type)
          (view network kinds log page t keeps type)
          (with_transports-Line network kinds log page t keeps type aloof)
          (length fs + 0)
          (length fs + id)
          s
          (run host method_of parse (failures id (suc (s.world t).request_ids) fs) s)
  persists fs id s ready single free typed failed =
      let host = joined network kinds log page t keeps type in
      let line = with_transports-Line network kinds log page t keeps type aloof in
      let view' = view network kinds log page t keeps type in
      run-Persists host t (str type) view' line method_of parse fs 0 id s s ready.retry failed
        (ready-Persists host t (str type) view' line id s ready single (free, typed))

  -- A live client without extensions, waiting messages or backoff, whose advice is to retry and whose one
  -- timeout, the one that it remembers, connects after the advised interval; whose listeners return
  -- or throw, leave the client and the use of its transport alone and are fewer than the bound on the
  -- rounds; and its transport, of a kind whose sends are logged and leave the long poll, the
  -- numbering and the type alone, with no long poll in flight. However many connect messages fail, each
  -- under its request's number and after the timeout that sends it: while the number of failures, less
  -- one, times the increment of the backoff stays below the maximum, exactly one timeout waits after
  -- the last one, it connects, and its delay is the number of failures times the increment, and the advised
  -- interval.
  pub run-timers :
      (fs : List Failure) (id : ℕ) (s : Client (World V))
      → IsReady (joined network kinds log page t keeps type) t id s
      → IsSingle s
      → (s.world t).longpoll_request ≡ none
      → (s.world t).type ≡ some type
      → AllConnects fs
      → length fs * s.backoff_increment < s.max_backoff + s.backoff_increment
      → let host = joined network kinds log page t keeps type in
        (run host method_of parse (failures id (suc (s.world t).request_ids) fs) s).timers
        ≡ record {
          id = length fs + id;
          delay = length fs * s.backoff_increment + interval_of (get "interval" s.advice);
          task = run_connect;
        }
          ∷ []
  run-timers fs id s ready single free typed failed below =
      let has = persists fs id s ready single free typed failed in
      let n = length fs in
      let same : n + 0 ≡ n = omega arith in
      let grown =
        subst (λ k. k * s.backoff_increment < s.max_backoff + s.backoff_increment) (sym same)
          below in
      has.timers
      ∙ ap (λ b. connect_timer (n + id) (b + interval_of (get "interval" s.advice)) ∷ [])
          (has.waits.grown grown ∙ ap (λ k. k * s.backoff_increment) same)

  -- The same client and transport, and however many connect messages fail, each under its request's number and
  -- after the timeout that sends it: after the last failure the backoff is at most one increment
  -- above the maximum, the client is not disconnected, exactly one timeout waits, and it connects
  -- after the backoff and the advised interval; no long poll is in flight, and the transport has
  -- sent one connect message for each failure, to the server's URL for connects, numbered one after
  -- the other and with the client's id if it has one, and nothing else.
  pub run-capped :
      (fs : List Failure) (id : ℕ) (s : Client (World V))
      → IsReady (joined network kinds log page t keeps type) t id s
      → IsSingle s
      → (s.world t).longpoll_request ≡ none
      → (s.world t).type ≡ some type
      → AllConnects fs
      → let host = joined network kinds log page t keeps type in
        let u = run host method_of parse (failures id (suc (s.world t).request_ids) fs) s in
        (u.backoff ≤ s.max_backoff + s.backoff_increment)
        × (is_disconnected u.status ≡ false)
        × (u.timers
            ≡ record {
              id = length fs + id;
              delay = u.backoff + interval_of (get "interval" s.advice);
              task = run_connect;
            }
              ∷ [])
        × ((u.world t).longpoll_request ≡ none)
        × (log (u.world t).world
            ≡ log (s.world t).world
              ++ Cycle.connects s.url (str type) s.client_id (suc s.message_id) (length fs))
  run-capped fs id s ready single free typed failed =
      let has = persists fs id s ready single free typed failed in
      let same : length fs + 0 ≡ length fs = omega arith in
      (
        has.waits.capped,
        has.waits.live,
        has.timers,
        has.free.0,
        has.logged
            ∙ ap
                (λ k.
                  log (s.world t).world
                  ++ Cycle.connects s.url (str type) s.client_id (suc s.message_id) k)
                same,
      )
