-- ===== src/Client/Polls/Cycle.antt =====
-- media/js/cometd.js: any number of rounds of a connected client.
use vurs.Prelude.{
  ℕ, zero, suc, ◌+◌, ◌<◌, true, false, Option, none, some, List, [], ◌∷◌, ◌++◌, ◌≡◌, refl, sym,
  subst, arith, String, Outcome, ◌∙◌, ap, length,
}
use mathlib.Core.List.{append_assoc, append-nil}
use native.Mathlib.Nat.{zero-add, add-zero}
use vurs.Value.{
  undefined, null, bool, num, Value, Object, str, arr, obj, nil, item, get, truthy, is_str,
}
use vurs.Listeners.{Argument}
use vurs.Client.State.{Client, Envelope, run_connect, Host}
use vurs.Client.Sending.{
  is_disconnected, interval_of, request_url, delayed_send, cancel_delayed_send, set_timeout,
  clear_scheduled, clear_timeout,
}
use vurs.Client.Connection.{connect_message, delayed_connect, set_status}
use vurs.Client.Responses.{action_of}
use vurs.Client.Events.{Event, fires, succeeds, perform, run}
use vurs.Client.Notified.{IsShort}
use vurs.Client.Numbered.{marked}
use vurs.Client.Polls.Line.{Line}
use vurs.Client.Polls.Sent.{connect_envelope, polling, fire-sent}
use vurs.Client.Polls.Answered.{advised, told, answered}

-- A live client of the transport `t`, without waiting messages or backoff, whose advice is to retry and
-- whose one timeout, with the given id, connects after the advised interval.
pub record IsWaiting {W : Type 0} (host : Host W) (t id : ℕ) (s : Client W) : Type 0 where
  pub used : s.transport ≡ some t
  pub live : is_disconnected s.status ≡ false
  pub queue : s.message_queue ≡ []
  pub backoff : s.backoff ≡ 0
  pub retry : is_str "retry" (action_of s.advice) ≡ true
  pub next : s.next_timer ≡ suc id
  pub waits :
      s.timers
      ≡ record { id = id; delay = interval_of (get "interval" s.advice); task = run_connect } ∷ []
  pub short : IsShort host s

-- The same of a client without extensions.
pub record IsReady {W : Type 0} (host : Host W) (t id : ℕ) (s : Client W) : Type 0 where
  pub waiting : IsWaiting host t id s
  pub open waiting use *
  pub plain : s.extensions ≡ []

-- A successful answer to a connect, whose advice, if it gives any, is to retry.
abbrev pub AdvisesRetry : Value → Type 0
AdvisesRetry (obj a) = is_str "retry" (action_of a) ≡ true
AdvisesRetry _ = Unit {0}

abbrev pub IsGood : Object → Type 0
IsGood m =
    (get "channel" m ≡ str "/meta/connect")
    × (truthy (get "successful" m) ≡ true)
    × AdvisesRetry (get "advice" m)

abbrev pub AllGood : List Object → Type 0
AllGood [] = Unit {0}
AllGood (m ∷ rest) = IsGood m × AllGood rest

-- The timeouts fire one after the other, and each connect, the request `r` and those after it, gets
-- its answer.
unfoldable pub rounds : ℕ → ℕ → List Object → List Event
rounds id r [] = []
rounds id r (m ∷ rest) =
    fires id ∷ succeeds r (arr (item (obj m) nil)) true ∷ rounds (suc id) (suc r) rest

-- Connect messages, numbered from `n` on.
unfoldable pub connects : String → Value → Value → ℕ → ℕ → List Envelope
connects url type client_id n zero = []
connects url type client_id n (suc k) =
    record {
      url = request_url url (some "connect");
      messages = marked client_id n (connect_message type) ∷ [];
    }
    ∷ connects url type client_id (suc n) k

advised-retry :
    (v : Value) (old : Object)
    → AdvisesRetry v
    → is_str "retry" (action_of old) ≡ true
    → is_str "retry" (action_of (advised v old)) ≡ true
advised-retry undefined old h k = k
advised-retry null old h k = k
advised-retry (bool b) old h k = k
advised-retry (num n) old h k = k
advised-retry (str x) old h k = k
advised-retry (arr xs) old h k = k
advised-retry (obj a) old h k = h

clear_scheduled-nil : (o : Option ℕ) → clear_scheduled o [] ≡ []
unfolding clear_scheduled clear_timeout
clear_scheduled-nil none = refl
clear_scheduled-nil (some i) = refl

module _ {W V : Type 0} (host : Host W) (t : ℕ) (type : Value) (view : W → V)
    (line : Line host t type view) where
  told-IsReady :
      (id : ℕ) (w : W) (a : Object) (s : Client W)
      → s.transport ≡ some t
      → s.extensions ≡ []
      → is_str "retry" (action_of a) ≡ true
      → s.next_timer ≡ suc id
      → s.timers ≡ []
      → IsShort host s
      → IsReady host t (suc id) (delayed_connect (told host t type view line w a s))
  unfolding delayed_connect delayed_send set_timeout set_status cancel_delayed_send
  told-IsReady id w a s used plain retry next none_wait short = record {
    waiting = record {
      used = used;
      live = refl;
      queue = refl;
      backoff = refl;
      retry = retry;
      next = ap suc next;
      waits =
          rw
            (
              next,
              none_wait,
              clear_scheduled-nil s.scheduled_send,
              zero-add (interval_of (get "interval" a)),
            )
            refl;
      short = short;
    };
    plain = plain;
  }

  -- The connect of a client that is ready and its answer, in the long poll that is free.
  record Round (id : ℕ) (s u : Client W) : Type 0 where
    pub ready : IsReady host t (suc id) u
    pub free : line.Free (view u.world)
    pub same_settings : u.settings ≡ s.settings
    pub same_client_id : u.client_id ≡ s.client_id
    pub counted : u.message_id ≡ suc s.message_id
    pub next : line.next (view u.world) ≡ suc (line.next (view s.world))
    pub logged : line.log (view u.world) ≡ line.log (view s.world) ++ connect_envelope type s ∷ []

  connects-same :
      {id : ℕ} (s u : Client W) (k : ℕ)
      → Round id s u
      → connects u.url type u.client_id (suc u.message_id) k
        ≡ connects s.url type s.client_id (suc (suc s.message_id)) k
  connects-same s u k round =
      ap (λ settings. connects settings.url type u.client_id (suc u.message_id) k)
        round.same_settings
      ∙ ap (λ c. connects s.url type c (suc u.message_id) k) round.same_client_id
      ∙ ap (λ n. connects s.url type s.client_id (suc n) k) round.counted

  module _ (method_of : Argument → String → Option ℕ) (parse : String → Outcome Value) where
    abbrev answers : ℕ → Object → Client W → Client W
    answers r m s = (perform host method_of parse (succeeds r (arr (item (obj m) nil)) true) s).0

    perform-Round :
        (id : ℕ) (m : Object) (s : Client W)
        → IsReady host t id s
        → line.Free (view s.world)
        → IsGood m
        → Round id s
            (answers (line.next (view s.world)) m (perform host method_of parse (fires id) s).0)
    unfolding perform delayed_connect
    perform-Round id m s ready free (channel, good, advice) =
        let r = line.next (view s.world) in
        let u = polling host t type view line (record s { timers = [] }) in
        let more : 0 < host.rounds = let short = ready.short 0 in omega arith in
        let a = advised (get "advice" m) s.advice in
        let retry = advised-retry (get "advice" m) s.advice advice ready.retry in
        let (flying, one_more, sent) =
          line.sent (connect_envelope type s) s.settings s.advice s.world free in
        let (w, same, free', next, logged) =
          answered host t type view line parse r m u flying ready.used ready.plain channel good refl
            retry ready.queue more ready.short in
        subst (λ x. Round id s (answers r m x.0))
          (sym
            (fire-sent host t type view line id _ s free ready.used ready.plain more ready.waits))
          (subst (λ x. Round id s x.0) (sym same)
            (record {
              ready =
                  told-IsReady id w a u ready.used ready.plain retry ready.next refl ready.short;
              free = free';
              same_settings = refl;
              same_client_id = refl;
              counted = refl;
              next = next ∙ one_more;
              logged = logged ∙ sent;
            }))

    -- A live client without extensions, waiting messages or backoff, whose advice is to retry and whose one
    -- timeout connects after the advised interval, whose listeners are fewer than the bound on the rounds; with a
    -- transport that sends a long poll where none is in flight and frees the line when it
    -- is answered, with none in flight now, whose requests are numbered one after the other: however many connect
    -- messages are answered, each under its request's number, successfully, and with the
    -- advice to retry or none, the client is again so after the last answer, with a new
    -- timeout and no long poll in flight, and has sent one connect message as a long poll
    -- for each timeout, to the server's URL for connects, numbered one after the other, with its id if it has
    -- one, and no other long poll.
    pub run-IsReady :
        (ms : List Object) (id : ℕ) (s : Client W)
        → IsReady host t id s
        → line.Free (view s.world)
        → AllGood ms
        → let u = run host method_of parse (rounds id (line.next (view s.world)) ms) s in
          IsReady host t (id + length ms) u
          × line.Free (view u.world)
          × (line.log (view u.world)
              ≡ line.log (view s.world)
                ++ connects s.url type s.client_id (suc s.message_id) (length ms))
    unfolding run rounds connects
    run-IsReady [] id s ready free good = (
      subst (λ n. IsReady host t n s) (sym (add-zero id)) ready,
      free,
      sym (append-nil (line.log (view s.world))),
    )
    run-IsReady (m ∷ rest) id s ready free (good, more) =
        let u =
          answers (line.next (view s.world)) m (perform host method_of parse (fires id) s).0 in
        let round = perform-Round id m s ready free good in
        let k = length rest in
        let moved : suc id + k ≡ id + suc k = omega arith in
        let log = line.log (view s.world) in
        let sent = connect_envelope type s ∷ [] in
        subst
          (λ r.
            let v = run host method_of parse (rounds (suc id) r rest) u in
            IsReady host t (id + suc k) v
            × line.Free (view v.world)
            × (line.log (view v.world)
                ≡ log ++ connects s.url type s.client_id (suc s.message_id) (suc k)))
          round.next
          (let (again, free', logged) = run-IsReady rest (suc id) u round.ready round.free more in
            let v = run host method_of parse (rounds (suc id) (line.next (view u.world)) rest) u in
            (
              subst (λ n. IsReady host t n v) moved again,
              free',
              logged
                  ∙ ap (λ l. l ++ connects u.url type u.client_id (suc u.message_id) k) round.logged
                  ∙ append_assoc log sent _
                  ∙ ap (λ l. log ++ connect_envelope type s ∷ l) (connects-same s u k round),
            ))
