-- ===== src/Client/Polls/Persists.antt =====
-- media/js/cometd.js: a client whose connects fail, one after the other.
use vurs.Prelude.{
  ℕ, zero, suc, ◌+◌, ◌<◌, true, false, Bool-cases, Option, some, List, [], ◌∷◌, ◌++◌, ◌≡◌, refl,
  sym, ap, ◌∙◌, subst, inl, inr, String, Outcome, length, ltb, arith,
}
use mathlib.Core.List.{append_assoc}
use vurs.Value.{Value, Object, str, get, is_str}
use vurs.Listeners.{Argument}
use vurs.Client.State.{Client, Envelope, Host}
use vurs.Client.Sending.{
  is_disconnected, increase_backoff, interval_of, request_url, delayed_send, set_timeout,
  cancel_delayed_send,
}
use vurs.Client.Connection.{delayed_connect, connect_message, set_status}
use vurs.Client.Numbered.{marked}
use vurs.Client.Responses.{follow_connect_failure, action_of}
use vurs.Client.Messages.{on_failure}
use vurs.Client.Events.{fires, fails, perform, run}
use vurs.Client.Notified.{IsShort}
use vurs.Client.Retry.{Waits, Waits-next, connect_timer, retried, follow_connect_failure-timers}
use vurs.Client.Polls.Line.{Line}
use vurs.Client.Polls.Sent.{connect_envelope, polling, fire-sent}
use vurs.Client.Polls.Cycle.{connects}
use vurs.Client.Polls.Failed.{Failure, AllConnects, failures, failed}

-- A connect message in its envelope.
abbrev one_connect : Value → String → Value → ℕ → Envelope
one_connect type url client_id n = record {
  url = request_url url (some "connect");
  messages = marked client_id n (connect_message type) ∷ [];
}

module _ {W V : Type 0} (host : Host W) (t : ℕ) (type : Value) (view : W → V)
    (line : Line host t type view) where
  -- A client whose connect has failed `n` times in a row, with one timeout for the next one.
  pub record Persists (n id : ℕ) (s u : Client W) : Type 0 where
    pub waits : Waits n s u
    pub used : u.transport ≡ some t
    pub plain : u.extensions ≡ []
    pub short : IsShort host u
    pub next_timer : u.next_timer ≡ suc id
    pub timers :
        u.timers ≡ connect_timer id (u.backoff + interval_of (get "interval" s.advice)) ∷ []
    pub same_client_id : u.client_id ≡ s.client_id
    pub counted : u.message_id ≡ s.message_id + n
    pub free : line.Free (view u.world)
    pub next : line.next (view u.world) ≡ line.next (view s.world) + n
    pub logged :
        line.log (view u.world)
        ≡ line.log (view s.world) ++ connects s.url type s.client_id (suc s.message_id) n

  connects-last :
      (url : String) (c : Value) (n k : ℕ)
      → connects url type c n (suc k)
        ≡ connects url type c n k ++ one_connect type url c (n + k) ∷ []
  unfolding connects
  connects-last url c n zero =
      let same : n ≡ n + 0 = omega arith in ap (λ i. one_connect type url c i ∷ []) same
  connects-last url c n (suc k) =
      let same : suc n + k ≡ n + suc k = omega arith in
      ap (λ l. one_connect type url c n ∷ l)
        (connects-last url c (suc n) k
          ∙ ap (λ i. connects url type c (suc n) k ++ one_connect type url c i ∷ []) same)

  -- The next connect in the log.
  one_more :
      (n : ℕ) (s u : Client W)
      → u.settings ≡ s.settings
      → u.client_id ≡ s.client_id
      → u.message_id ≡ s.message_id + n
      → line.log (view u.world)
        ≡ line.log (view s.world) ++ connects s.url type s.client_id (suc s.message_id) n
      → line.log (view u.world) ++ connect_envelope type u ∷ []
        ≡ line.log (view s.world) ++ connects s.url type s.client_id (suc s.message_id) (suc n)
  one_more n s u settings known counted logged =
      let before = line.log (view s.world) in
      let sent = connects s.url type s.client_id (suc s.message_id) n in
      let number : suc u.message_id ≡ suc s.message_id + n = omega arith in
      ap (λ l. l ++ connect_envelope type u ∷ []) logged
      ∙ append_assoc before sent _
      ∙ ap (λ l. before ++ (sent ++ one_connect type l.url u.client_id (suc u.message_id) ∷ []))
          settings
      ∙ ap (λ c. before ++ (sent ++ one_connect type s.url c (suc u.message_id) ∷ [])) known
      ∙ ap (λ i. before ++ (sent ++ one_connect type s.url s.client_id i ∷ [])) number
      ∙ ap (λ l. before ++ l) (sym (connects-last s.url s.client_id (suc s.message_id) n))

  -- A failure changes the backoff, and sets a timeout.
  retried_with :
      (x : Client W)
      → is_disconnected x.status ≡ false
      → is_str "retry" (action_of x.advice) ≡ true
      → (b : ℕ) × (follow_connect_failure x ≡ delayed_connect (record x { backoff = b }))
  unfolding increase_backoff
  retried_with x live retry = elim (Bool-cases (ltb x.backoff x.max_backoff)) [
    | inl below ↦
        (x.backoff + x.backoff_increment, retried x live retry ∙ ap delayed_connect (rw below refl))
    | inr above ↦ (x.backoff, retried x live retry ∙ ap delayed_connect (rw above refl))
  ]

  waiting_on :
      (n id : ℕ) (s u : Client W) (w : W)
      → is_str "retry" (action_of s.advice) ≡ true
      → Persists n id s u
      → line.Free (view w)
      → line.next (view w) ≡ suc (line.next (view u.world))
      → line.log (view w) ≡ line.log (view u.world) ++ connect_envelope type u ∷ []
      → Persists (suc n) (suc id) s (
          follow_connect_failure
            (record (polling host t type view line (record u { timers = [] })) { world = w }))
  unfolding delayed_connect delayed_send set_timeout set_status cancel_delayed_send
  waiting_on n id s u w retry has free next logged =
      let x = record (polling host t type view line (record u { timers = [] })) { world = w } in
      let before = has.waits in
      let now : Waits n s x = record {
        same_settings = before.same_settings;
        same_advice = before.same_advice;
        live = refl;
        single = inl refl;
        grown = before.grown;
        capped = before.capped;
      } in
      let advised : is_str "retry" (action_of x.advice) ≡ true = rw before.same_advice retry in
      let (b, same) = retried_with x refl advised in
      let y = delayed_connect (record x { backoff = b }) in
      let waits : Waits (suc n) s y =
        subst (Waits (suc n) s) (sym (retried x refl advised) ∙ same)
          (Waits-next n s x retry now) in
      let timers : y.timers
          ≡ connect_timer x.next_timer (y.backoff + interval_of (get "interval" x.advice)) ∷ [] =
        subst
          (λ v.
            v.timers
            ≡ connect_timer x.next_timer (v.backoff + interval_of (get "interval" x.advice)) ∷ [])
          same (follow_connect_failure-timers x refl advised (inl refl)) in
      subst (Persists (suc n) (suc id) s) (sym same) (record {
        waits = waits;
        used = has.used;
        plain = has.plain;
        short = has.short;
        next_timer = ap suc has.next_timer;
        timers =
            timers
            ∙ ap (λ i. connect_timer i (y.backoff + interval_of (get "interval" x.advice)) ∷ [])
                has.next_timer
            ∙ ap (λ a. connect_timer (suc id) (y.backoff + interval_of (get "interval" a)) ∷ [])
                before.same_advice;
        same_client_id = has.same_client_id;
        counted = let counted = has.counted in omega arith;
        free = free;
        next = let before = has.next in omega arith;
        logged =
            logged ∙ one_more n s u before.same_settings has.same_client_id has.counted has.logged;
      })

  module _ (method_of : Argument → String → Option ℕ) (parse : String → Outcome Value) where
    -- A timeout that connects, and the failure of the connect.
    fails_once :
        (n id : ℕ) (xhr : Value) (m : Object) (s u : Client W)
        → is_str "retry" (action_of s.advice) ≡ true
        → get "channel" m ≡ str "/meta/connect"
        → Persists n id s u
        → let v = (perform host method_of parse (fires id) u).0 in
          let r = line.next (view u.world) in
          let x = (perform host method_of parse (fails r xhr (m ∷ []) true) v).0 in
          Persists (suc n) (suc id) s x
          × (line.next (view x.world) ≡ suc (line.next (view u.world)))
    unfolding perform
    fails_once n id xhr m s u retry channel has =
        let r = line.next (view u.world) in
        let more : 0 < host.rounds = let short = has.short 0 in omega arith in
        let p = polling host t type view line (record u { timers = [] }) in
        let fired =
          fire-sent host t type view line id _ u has.free has.used has.plain more has.timers in
        let (flying, one_more, sent) =
          line.sent (connect_envelope type u) u.settings u.advice u.world has.free in
        let (w, same, free, next, logged) =
          failed host t type view line r xhr m p flying has.used channel has.short in
        let after = waiting_on n id s u w retry has free (next ∙ one_more) (logged ∙ sent) in
        let out = ap (λ c. on_failure host r xhr (m ∷ []) true c.0) fired ∙ same in
        subst
          (λ c.
            Persists (suc n) (suc id) s c.0
            × (line.next (view c.0.world) ≡ suc (line.next (view u.world))))
          (sym out) (after, let now = after.next in let before = has.next in omega arith)

    -- Every failure leaves the client waiting for the next try.
    pub run-Persists :
        (fs : List Failure) (n id : ℕ) (s u : Client W)
        → is_str "retry" (action_of s.advice) ≡ true
        → AllConnects fs
        → Persists n id s u
        → Persists
            (length fs + n)
            (length fs + id)
            s
            (run host method_of parse (failures id (line.next (view u.world)) fs) u)
    unfolding run failures
    run-Persists [] n id s u retry connects has =
        let same : (k : ℕ) → k ≡ 0 + k = λ k. omega arith in
        subst (λ k. Persists k (0 + id) s u) (same n) (subst (λ k. Persists n k s u) (same id) has)
    run-Persists ((xhr, m) ∷ fs) n id s u retry (channel, connects) has =
        let v = (perform host method_of parse (fires id) u).0 in
        let r = line.next (view u.world) in
        let x = (perform host method_of parse (fails r xhr (m ∷ []) true) v).0 in
        let (once, next) = fails_once n id xhr m s u retry channel has in
        let moved : (k : ℕ) → length fs + suc k ≡ suc (length fs) + k = λ k. omega arith in
        let k = length fs in
        subst
          (λ q.
            Persists (suc k + n) (suc k + id) s
              (run host method_of parse (failures (suc id) q fs) x))
          next
          (subst
            (λ a.
              Persists a (suc k + id) s
                (run host method_of parse (failures (suc id) (line.next (view x.world)) fs) x))
            (moved n)
            (subst
              (λ b.
                Persists (k + suc n) b s
                  (run host method_of parse (failures (suc id) (line.next (view x.world)) fs) x))
              (moved id) (run-Persists fs (suc n) (suc id) s x retry connects once)))
