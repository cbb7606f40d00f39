-- ===== src/Reload/Resumed.antt =====
-- media/js/cometd/ReloadExtension.js and media/js/cometd.js: a new page whose client goes on with the
-- connection of the page before.
use vurs.Prelude.{
  ℕ, ◌<◌, String, true, Option, none, some, [], ◌∷◌, ◌≡◌, refl, sym, ap, ◌∙◌, ◌⊎◌, inl, inr, ok,
  thrown, message, Outcome, subst, arith,
}
use vurs.Prelude.Dict
use vurs.Value.{Object, Items, str, arr, obj, get, truthy, is_str, strings}
use vurs.Value.Objects.{Distinct, get-put, get-put_self}
use vurs.Registry.{contains}
use vurs.Registry.Consistent.{IsConsistent}
use vurs.Registry.Negotiate.{NoneUsable}
use vurs.Listeners.Slots.{length-clear_subscriptions}
use vurs.Client.State.{Client, Host}
use vurs.Client.Connection.{accepts_now}
use vurs.Client.Responses.{action_of}
use vurs.Client.Messages.{receive}
use vurs.Client.Api.{start_handshake}
use vurs.Client.Notified.{IsShort}
use vurs.Client.Sound.{IsSingle}
use vurs.Client.Polls.Quiet.{IsAloof}
use vurs.Client.Polls.Answered.{advised}
use vurs.Client.Polls.Cycle.{IsWaiting}
use vurs.Client.Polls.Shaken.{receive-Starts}
use vurs.Client.Polls.Shaking.{IsCalm, shaken, handshake-held}
use vurs.Reload.{Browser, Reload, restore, cookie_name, new, begin_state, reload, run_replay}
use vurs.Reload.Hooked.{Place, keep, on_outgoing, receive_value, replay_first, fire_replay}
use vurs.Reload.Restored.{IsFaithful, saved, jar-reload}
use vurs.Reload.Withheld.{both, holding, restored, held_back}

module _ {J W L : Type 0} (place : Place J W L) (browser : Browser J) (host : Host W)
    (aloof : IsAloof host (both place)) (calm : IsCalm host (both place)) (r : Reload J)
    (faithful : IsFaithful browser r.state) (m : Object) (xs : Items) where
  -- The connection goes on: what holds of a client, and of its extension, in the end.
  pub record GoesOn (s v : Client W) : Type 0 where
    pub type : String
    pub transport : ℕ
    pub is_offered : contains type (strings xs) ≡ true
    pub found : Dict.lookup type s.transports.transports ≡ some transport
    pub waiting : IsWaiting host transport s.next_timer v
    pub same_extensions : v.extensions ≡ s.extensions
    pub client_id : v.client_id ≡ get "clientId" m
    pub reestablish : v.reestablish ≡ true
    pub nothing_sent : place.log v.world ≡ place.log s.world
    pub none_put_off : (place.view v.world).pending ≡ []
    pub handshake_response : get "handshakeResponse" (place.view v.world).state ≡ obj m
    pub subscriptions : get "subscriptions" (place.view v.world).state ≡ get "subscriptions" r.state

  -- A handshake, and the timeout that it sets.
  pub record Resumes (s : Client W) (u : Client W × Outcome (Unit {0})) : Type 0 where
    pub returns : u.1 ≡ ok tt
    pub nothing_sent : place.log u.0.world ≡ place.log s.world
    pub same_timers : u.0.timers ≡ s.timers
    pub cookie_gone : browser.cookie cookie_name (place.view u.0.world).jar ≡ ""
    pub result :
        ((NoneUsable
            (accepts_now host (get "version" m) (keep place (restored browser s.url r) u.0))
            s.transports.transports
            (strings xs)
            s.transports.types)
          × ((fire_replay place host u.0).1
              ≡ thrown (message "Could not negotiate transport with server"))
          × ((fire_replay place host u.0).0.timers ≡ s.timers))
        ⊎ GoesOn s (fire_replay place host u.0).0

  replayed :
      (u : Client W) (url : String)
      → place.view u.world ≡ holding browser url r
      → get "handshakeResponse" r.state ≡ obj m
      → fire_replay place host u ≡ receive host m (keep place (restored browser url r) u)
  unfolding fire_replay replay_first receive_value run_replay begin_state new
  replayed u url there answer =
      ap (λ x. replay_first place host x.pending u) there
      ∙ ap
          (λ x.
            receive_value place host (get "handshakeResponse" r.state)
              (keep place (run_replay (restore r.state) (record x { pending = [] })).0 u))
          there
      ∙ ap (λ v. receive_value place host v (keep place (restored browser url r) u)) answer

  module _ (props : Object) (s : Client W) (answer : get "handshakeResponse" r.state ≡ obj m)
      (channel : get "channel" m ≡ str "/meta/handshake")
      (good : truthy (get "successful" m) ≡ true)
      (offers : get "supportedConnectionTypes" m ≡ arr xs)
      (retry : is_str "retry" (action_of (advised (get "advice" m) s.advice)) ≡ true)
      (queue : s.message_queue ≡ []) (backoff : s.backoff ≡ 0) (single : IsSingle s)
      (consistent : IsConsistent s.transports) (short : IsShort host s) where
    goes_on :
        (t : Option ℕ) (w : W)
        → place.log w ≡ place.log s.world
        → let u = shaken props t (place.store (holding browser s.url r) w) s in
          let x = keep place (restored browser s.url r) u in
          (NoneUsable
              (accepts_now host (get "version" m) x)
              s.transports.transports
              (strings xs)
              s.transports.types
            × ((receive host m x).1 ≡ thrown (message "Could not negotiate transport with server"))
            × ((receive host m x).0.timers ≡ s.timers))
          ⊎ GoesOn s (receive host m x).0
    unfolding run_replay begin_state new
    goes_on t w kept =
        let h = holding browser s.url r in
        let u = shaken props t (place.store h w) s in
        let x = keep place (restored browser s.url r) u in
        let there = place.view-store (restored browser s.url r) (place.store h w) in
        let short' : IsShort host x = λ a.
          let bound = short a in
          let long = length-clear_subscriptions s.listeners a in omega arith in
        elim (receive-Starts host (both place) aloof m xs x channel good offers retry queue backoff
          single consistent short') [
            | inl none_usable ↦ inl none_usable
            | inr (c, starts) ↦ inr (
                let seen = ap (λ p. p.0) starts.nothing_sent ∙ there in
                record {
                  type = c.chosen;
                  transport = c.transport;
                  is_offered = c.is_offered;
                  found = c.found;
                  waiting = starts.waiting;
                  same_extensions = starts.same_extensions;
                  client_id = starts.client_id;
                  reestablish = starts.reestablish;
                  nothing_sent =
                      ap (λ p. p.1) starts.nothing_sent
                      ∙ place.log-store (restored browser s.url r) (place.store h w)
                      ∙ place.log-store h w
                      ∙ kept;
                  none_put_off = ap (λ y. y.pending) seen;
                  handshake_response =
                      ap (λ y. get "handshakeResponse" y.state) seen
                      ∙ get-put "subscriptions" "handshakeResponse" (get "subscriptions" r.state) _
                      ∙ get-put_self "handshakeResponse" (get "handshakeResponse" r.state) _
                      ∙ answer;
                  subscriptions =
                      ap (λ y. get "subscriptions" y.state) seen
                      ∙ get-put_self "subscriptions" (get "subscriptions" r.state) _;
                })
          ]

    -- A page was saved by `reload`, with an answer to a handshake that was successful, lists the server's
    -- types and advises to retry, or gives no advice where that is the new client's advice. The
    -- cookie has not expired, and cookies and JSON behave as documented. A new page for the same
    -- server has a client with the reload extension alone, without waiting messages or backoff, with
    -- at most one timeout and a consistent registry, whose listeners return or throw and are fewer
    -- than the bound on the rounds, which is more than one, and whose transports' `reset` returns,
    -- both leaving the client, the extension and the log of what is sent alone. Then its
    -- handshake returns, sends nothing, leaves the timeouts alone and takes the cookie away; and
    -- when the function that was put off runs, either no type is both listed and accepted by its
    -- transport, and the client throws that it could not negotiate and sets no timeout, or the client
    -- takes the transport of a listed type and the old id, is ready to connect with a new
    -- timeout for it, and still sends nothing, and the extension has the old answer and the old
    -- subscriptions, and nothing put off.
    pub start_handshake-Resumes :
        (name : String) (e : ℕ)
        → 1 < host.rounds
        → host.outgoing e ≡ some (on_outgoing place browser)
        → s.extensions ≡ record { name = name; extension = e } ∷ []
        → place.view s.world ≡ new none (reload browser r).jar
        → 0 < r.cookie_max_age
        → get "url" r.state ≡ str s.url
        → Distinct props
        → Resumes s (start_handshake host (obj props) s)
    unfolding begin_state new
    start_handshake-Resumes name e more hooked alone loaded age same distinct =
        let h = holding browser s.url r in
        let answered = ap truthy answer in
        let found = loaded ∙ ap (new none) (jar-reload browser s.url m r faithful answered) in
        let (w, t, out, kept) =
          handshake-held host (both place) calm (place.store h) props distinct s consistent
            λ n u named extensions settings kept.
              held_back place browser host r faithful name e n s u more hooked alone found age
                answered same named extensions settings kept in
        let logged = ap (λ p. p.1) kept in
        let u = shaken props t (place.store h w) s in
        subst (Resumes s) (sym out) (record {
          returns = refl;
          nothing_sent = place.log-store h w ∙ logged;
          same_timers = refl;
          cookie_gone =
              ap (λ y. browser.cookie cookie_name y.jar) (place.view-store h w)
              ∙ faithful.gone cookie_name "" (saved browser r);
          result =
              subst
                (λ y.
                  (NoneUsable
                      (accepts_now host (get "version" m) (keep place (restored browser s.url r) u))
                      s.transports.transports (strings xs) s.transports.types
                    × (y.1 ≡ thrown (message "Could not negotiate transport with server"))
                    × (y.0.timers ≡ s.timers))
                  ⊎ GoesOn s y.0)
                (sym (replayed u s.url (place.view-store h w) answer)) (goes_on t w logged);
        })
