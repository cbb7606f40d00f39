-- ===== src/Client/Polls/Shaken.antt =====
-- media/js/cometd.js: the answer to a handshake, from which the rounds of a client start.
use vurs.Prelude.{
  ℕ, ◌+◌, Bool, true, Option, none, some, List, [], ◌∷◌, ◌≡◌, refl, String, Outcome, ok, thrown,
  message, ◌∙◌, ap, ◌⊎◌, inl, inr, sym, subst,
}
use vurs.Value.{Object, Items, str, arr, get, truthy, is_str, strings, bool, put}
use native.Mathlib.Nat.{zero-add}
use vurs.Registry.{negotiate_transport, negotiate_among}
use vurs.Registry.Consistent.{IsConsistent}
use vurs.Registry.Negotiate.{Choice, NoneUsable, negotiate_transport_lem}
use vurs.Client.State.{Client, Host, M, connecting, run_connect, modify, resume, ◌>>=◌, ◌>>◌}
use vurs.Client.Connection.{
  notify_listeners, delayed_connect, set_status, lift_outcome, accepts_now, chosen,
}
use vurs.Client.Responses.{
  action_of, offered_types, handshake_accepted, handshake_response, adopt_transport,
  remember_handshake, follow_handshake,
}
use vurs.Client.Messages.{receive, dispatch_response, meta_channel}
use vurs.Client.Notified.{IsShort}
use vurs.Client.Polls.Quiet.{IsAloof, notify_listeners-Quietly}
use vurs.Client.Sound.{IsSingle, delayed_send-timers}
use vurs.Client.Sending.{delayed_send, set_timeout, cancel_delayed_send, interval_of}
use vurs.Client.Polls.Cycle.{IsWaiting}
use vurs.Client.Polls.Answered.{advised, take_advice-advised}

module _ {W : Type 0} (host : Host W) where
  -- What the two sides agree on.
  abbrev pub negotiated : Object → Items → Client W → Outcome (Option (String × ℕ))
  negotiated m xs s =
      negotiate_transport (accepts_now host (get "version" m) s) (strings xs) s.transports

  -- The rest of a successful handshake.
  abbrev adopt : Bool → Object → Option (String × ℕ) → M W (Unit {0})
  adopt again m t =
      adopt_transport host (chosen t)
      >> modify remember_handshake
      >> notify_listeners host "/meta/handshake" (put "reestablish" (bool again) m)
      >> modify (λ u. follow_handshake (action_of u.advice) u)

  -- Without a type of its own the client agrees on none, whatever is offered.
  agreed :
      (accept : ℕ → Bool) (d : List (String × ℕ)) (types : List String) (xs : Items)
      (k : Option (String × ℕ) → M W (Unit {0})) (u : Client W)
      → (lift_outcome (offered_types types (arr xs)) >>= λ offered.
            lift_outcome (negotiate_among accept d types offered) >>= k)
          u
        ≡ resume k (u, negotiate_among accept d types (strings xs))
  unfolding offered_types negotiate_among
  agreed accept d [] xs k u = refl
  agreed accept d (t ∷ ts) xs k u = refl

  handshake_accepted-negotiated :
      (m : Object) (xs : Items) (s : Client W)
      → get "supportedConnectionTypes" m ≡ arr xs
      → handshake_accepted host m s
        ≡ resume
            (adopt s.reestablish m)
            (record s { client_id = get "clientId" m }, negotiated m xs s)
  unfolding handshake_accepted negotiate_transport
  handshake_accepted-negotiated m xs s offers =
      let u = record s { client_id = get "clientId" m } in
      let accept = accepts_now host (get "version" m) s in
      ap
        (λ v.
          (lift_outcome (offered_types s.transports.types v) >>= λ offered.
          lift_outcome (negotiate_among accept s.transports.transports s.transports.types offered)
          >>= adopt s.reestablish m)
            u)
        offers
      ∙ agreed accept s.transports.transports s.transports.types xs (adopt s.reestablish m) u

  receive-shaken :
      (m : Object) (xs : Items) (s : Client W)
      → get "channel" m ≡ str "/meta/handshake"
      → truthy (get "successful" m) ≡ true
      → get "supportedConnectionTypes" m ≡ arr xs
      → receive host m s
        ≡ resume (adopt s.reestablish m) (
          record s { advice = advised (get "advice" m) s.advice; client_id = get "clientId" m },
          negotiated m xs s,
        )
  unfolding receive dispatch_response meta_channel handshake_response
  receive-shaken m xs s channel good offers =
      rw (channel, take_advice-advised host m s, good)
        (handshake_accepted-negotiated m xs
          (record s { advice = advised (get "advice" m) s.advice }) offers)

  adopt-none :
      (again : Bool) (m : Object) (u : Client W)
      → adopt again m none u ≡ (u, thrown (message "Could not negotiate transport with server"))
  unfolding adopt_transport
  adopt-none again m u = refl

  module _ {L : Type 0} (log : W → L) (aloof : IsAloof host log) where
    adopt-chosen :
        (again : Bool) (m : Object) (type : String) (t : ℕ) (u : Client W)
        → is_str "retry" (action_of u.advice) ≡ true
        → IsShort host u
        → (w : W) × (adopt again m (some (type, t)) u ≡ (
          delayed_connect (record u { transport = some t; reestablish = true; world = w }),
          ok tt,
        ))
          × (log w ≡ log u.world)
    unfolding adopt_transport remember_handshake follow_handshake
    adopt-chosen again m type t u retry short =
        let v = record u { transport = some t; reestablish = true } in
        let (w, same, kept) =
          notify_listeners-Quietly host log aloof "/meta/handshake"
            (put "reestablish" (bool again) m) v short in
        (
          w,
          ap (resume (λ _. modify (λ x. follow_handshake (action_of x.advice) x))) same
              ∙ ap (λ x. (x, ok tt)) (rw retry refl),
          kept,
        )

    -- What a successful answer to a handshake leads to.
    pub record Starts (m : Object) (t : ℕ) (s u : Client W) : Type 0 where
      pub waiting : IsWaiting host t s.next_timer u
      pub same_extensions : u.extensions ≡ s.extensions
      pub same_listeners : u.listeners ≡ s.listeners
      pub client_id : u.client_id ≡ get "clientId" m
      pub reestablish : u.reestablish ≡ true
      pub nothing_sent : log u.world ≡ log s.world

    started :
        (m : Object) (t : ℕ) (w : W) (s : Client W)
        → s.message_queue ≡ []
        → s.backoff ≡ 0
        → IsSingle s
        → is_str "retry" (action_of (advised (get "advice" m) s.advice)) ≡ true
        → IsShort host s
        → log w ≡ log s.world
        → Starts m t s (
            delayed_connect (record s {
              advice = advised (get "advice" m) s.advice;
              client_id = get "clientId" m;
              transport = some t;
              reestablish = true;
              world = w;
            }))
    unfolding delayed_connect delayed_send set_timeout set_status cancel_delayed_send
    started m t w s queue backoff single retry short kept =
        let a = advised (get "advice" m) s.advice in
        record {
          waiting = record {
            used = refl;
            live = refl;
            queue = queue;
            backoff = backoff;
            retry = retry;
            next = refl;
            waits =
                delayed_send-timers run_connect
                  (set_status connecting (record s { advice = a; transport = some t; world = w }))
                  single
                ∙ ap (λ d. record { id = s.next_timer; delay = d; task = run_connect } ∷ [])
                    (ap (λ b. b + interval_of (get "interval" a)) backoff ∙ zero-add _);
            short = short;
          };
          same_extensions = refl;
          same_listeners = refl;
          client_id = refl;
          reestablish = refl;
          nothing_sent = kept;
        }

    -- A client without waiting messages or backoff, with at most one timeout and a consistent registry,
    -- whose listeners return or throw, leave the client alone and are fewer than the bound
    -- on the rounds, and a successful answer to a handshake that lists the server's types and advises to
    -- retry, or gives no advice where that was the advice before: either no type is both listed and
    -- accepted by its transport, and the client throws that it could not negotiate and sets no timeout;
    -- or the client takes the transport of the first such type in the order of its
    -- registry and the id that it was given, sends nothing, and is ready to connect, with a new timeout
    -- for it.
    pub receive-Starts :
        (m : Object) (xs : Items) (s : Client W)
        → get "channel" m ≡ str "/meta/handshake"
        → truthy (get "successful" m) ≡ true
        → get "supportedConnectionTypes" m ≡ arr xs
        → is_str "retry" (action_of (advised (get "advice" m) s.advice)) ≡ true
        → s.message_queue ≡ []
        → s.backoff ≡ 0
        → IsSingle s
        → IsConsistent s.transports
        → IsShort host s
        → let accept = accepts_now host (get "version" m) s in
          let d = s.transports.transports in
          (NoneUsable accept d (strings xs) s.transports.types
            × ((receive host m s).1 ≡ thrown (message "Could not negotiate transport with server"))
            × ((receive host m s).0.timers ≡ s.timers))
          ⊎ ((c : Choice accept d (strings xs) s.transports.types (negotiated m xs s)) × Starts m
                c.transport s
                (receive host m s).0)
    receive-Starts m xs s channel good offers retry queue backoff single consistent short =
        let u = record s {
          advice = advised (get "advice" m) s.advice;
          client_id = get "clientId" m;
        } in
        let whole = receive-shaken m xs s channel good offers in
        elim (negotiate_transport_lem (accepts_now host (get "version" m) s) s.transports consistent
          (strings xs)) [
            | inl (none_usable, failed) ↦
                let out =
                  whole
                  ∙ ap (λ r. resume (adopt s.reestablish m) (u, r)) failed
                  ∙ adopt-none s.reestablish m u in
                inl (none_usable, ap (λ r. r.1) out, ap (λ r. r.0.timers) out)
            | inr c ↦
                let (w, same, kept) =
                  adopt-chosen s.reestablish m c.chosen c.transport u retry short in
                let out = whole ∙ ap (λ r. resume (adopt s.reestablish m) (u, r)) c.result ∙ same in
                inr (
                  c,
                  subst (Starts m c.transport s) (sym (ap (λ r. r.0) out))
                      (started m c.transport w s queue backoff single retry short kept),
                )
          ]
