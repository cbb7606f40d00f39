-- ===== src/Client/Polls/Answered.antt =====
-- media/js/cometd.js: the answer to a connect message.
use vurs.Prelude.{
  ℕ, ◌<◌, Bool, true, false, some, [], ◌∷◌, ◌≡◌, refl, arith, String, Outcome, ok, ◌∙◌, sym, subst,
  ap,
}
use vurs.Value.{Value, Object, str, arr, obj, nil, item, get, truthy, is_str}
use vurs.Client.State.{Client, connecting, Host, modify, return, resume, caught}
use vurs.Client.Sending.{is_disconnected, flush_batch, send_all, reset_backoff}
use vurs.Client.Connection.{notify_listeners, set_status, delayed_connect}
use vurs.Client.Responses.{action_of, connect_response, connect_accepted, follow_connect}
use vurs.Client.Messages.{
  convert_to_messages, take_advice, receive, receive_if, receive_all, dispatch_response,
  meta_channel, complete_on, handle_response, on_success,
}
use vurs.Client.Notified.{IsShort}
use vurs.Client.Polls.Quiet.{notify_listeners-Quietly}
use vurs.Client.Polls.Line.{Line}
use vurs.Client.Polls.Sent.{apply_incoming-plain}

-- The advice that is in force after a message.
abbrev pub advised : Value → Object → Object
advised (obj a) old = a
advised _ old = old

module _ {W : Type 0} (host : Host W) where
  pub take_advice-advised :
      (m : Object) (s : Client W)
      → take_advice host m s ≡ record s { advice = advised (get "advice" m) s.advice }
  take_advice-advised m s = ground arith

module _ {W V : Type 0} (host : Host W) (t : ℕ) (type : Value) (view : W → V)
    (line : Line host t type view) where
  -- The client once an answer is accepted and its listeners are told.
  abbrev pub told : W → Object → Client W → Client W
  told w a s = record s {
    advice = a;
    status = connecting;
    internal_batch = false;
    message_queue = [];
    backoff = 0;
    world = w;
  }

  connect_response-accepted :
      (m : Object) (s : Client W)
      → truthy (get "successful" m) ≡ true
      → is_disconnected s.status ≡ false
      → is_str "retry" (action_of s.advice) ≡ true
      → s.message_queue ≡ []
      → connect_response host m s
        ≡ resume
            (λ _. modify (follow_connect (action_of s.advice)))
            (notify_listeners host "/meta/connect" m
              (record s { status = connecting; internal_batch = false; message_queue = [] }))
  unfolding connect_response connect_accepted flush_batch send_all set_status
  connect_response-accepted m s good live retry queue = rw (live, good, retry, queue) refl

  follow_connect-retried :
      (action : Value) (s : Client W)
      → is_str "retry" action ≡ true
      → follow_connect action s ≡ delayed_connect (record s { backoff = 0 })
  unfolding follow_connect reset_backoff
  follow_connect-retried action s retry = rw retry refl

  receive-connect :
      (m : Object) (s : Client W)
      → get "channel" m ≡ str "/meta/connect"
      → receive host m s
        ≡ connect_response host m (record s { advice = advised (get "advice" m) s.advice })
  unfolding receive dispatch_response meta_channel
  receive-connect m s channel = rw (channel, take_advice-advised host m s) refl

  pub complete_on-carried :
      (r : ℕ) (success : Bool) (s : Client W)
      → line.Flying r (view s.world)
      → s.transport ≡ some t
      → complete_on host r success true s.transport s ≡ (
        record s { world = (host.complete t r success true s.settings s.advice s.world).0 },
        ok tt,
      )
  complete_on-carried r success s flying used =
      ap (λ o. complete_on host r success true o s) used
      ∙ ap
          (λ (o : Outcome (Unit {0})). (
            record s { world = (host.complete t r success true s.settings s.advice s.world).0 },
            o,
          ))
          (line.completes r success s.settings s.advice s.world flying)

  receive-told :
      (m : Object) (s : Client W)
      → get "channel" m ≡ str "/meta/connect"
      → truthy (get "successful" m) ≡ true
      → is_disconnected s.status ≡ false
      → is_str "retry" (action_of (advised (get "advice" m) s.advice)) ≡ true
      → s.message_queue ≡ []
      → IsShort host s
      → (w : W) × (receive host m s
          ≡ (delayed_connect (told w (advised (get "advice" m) s.advice) s), ok tt))
        × (view w ≡ view s.world)
  receive-told m s channel good live retry queue short =
      let u = record s { advice = advised (get "advice" m) s.advice } in
      let v = record u { status = connecting; internal_batch = false; message_queue = [] } in
      let (w, same, kept) =
        notify_listeners-Quietly host view line.aloof "/meta/connect" m v short in
      (
        w,
        receive-connect m s channel
            ∙ connect_response-accepted m u good live retry queue
            ∙ ap (resume (λ _. modify (follow_connect (action_of u.advice)))) same
            ∙ ap (λ x. (x, ok tt))
                (follow_connect-retried (action_of u.advice) (record v { world = w }) retry),
        kept,
      )

  -- A successful answer with the advice to retry, or with none and the same advice before, sets the
  -- next timeout.
  pub answered :
      (parse : String → Outcome Value) (r : ℕ) (m : Object) (s : Client W)
      → line.Flying r (view s.world)
      → s.transport ≡ some t
      → s.extensions ≡ []
      → get "channel" m ≡ str "/meta/connect"
      → truthy (get "successful" m) ≡ true
      → is_disconnected s.status ≡ false
      → is_str "retry" (action_of (advised (get "advice" m) s.advice)) ≡ true
      → s.message_queue ≡ []
      → 0 < host.rounds
      → IsShort host s
      → (w : W) × (on_success host parse r (arr (item (obj m) nil)) true s
          ≡ (delayed_connect (told w (advised (get "advice" m) s.advice) s), ok tt))
        × line.Free (view w)
        × (line.next (view w) ≡ line.next (view s.world))
        × (line.log (view w) ≡ line.log (view s.world))
  unfolding on_success handle_response convert_to_messages receive_all receive_if
  answered parse r m s flying used plain channel good live retry queue more short =
      let x = (host.complete t r true true s.settings s.advice s.world).0 in
      let u = record s { world = x } in
      let (free, again, logged) = line.completed r true s.settings s.advice s.world flying in
      let (w, same, kept) = receive-told m u channel good live retry queue short in
      (
        w,
        ap (λ c. caught (resume (λ _. receive_all host (m ∷ [])) c))
              (complete_on-carried r true s flying used)
            ∙ ap (λ c. caught (resume (λ _. return tt) (resume (receive_if host) c)))
                (apply_incoming-plain host m u plain more)
            ∙ ap (λ c. caught (resume (λ _. return tt) c)) same,
        subst line.Free (sym kept) free,
        ap line.next kept ∙ again,
        ap line.log kept ∙ logged,
      )
