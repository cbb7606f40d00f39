-- ===== src/Client/Polls/Sent.antt =====
-- media/js/cometd.js: the timeout that sends a connect message.
use vurs.Prelude.{
  ℕ, zero, suc, ◌<◌, true, Option, some, List, [], ◌∷◌, ◌≡◌, refl, arith, String, ok, ◌∙◌, ap,
}
use vurs.Value.{Value, Object}
use vurs.Client.State.{
  Client, Extension, Timer, run_connect, Envelope, connected, connecting, Host, Callback, modify,
  resume, caught,
}
use vurs.Client.Extensions.{apply_from, apply_outgoing_extensions, apply_incoming_extensions}
use vurs.Client.Sending.{
  send, prepare, stamp, deliver, transport_send, request_url, stamped, clear_timeout,
}
use vurs.Client.Connection.{connect, connect_by, connect_message, set_status, run_task}
use vurs.Client.Api.{fire, find_timer, forget_timer, run_found}
use vurs.Client.Polls.Line.{Line}

-- Without an extension a message stays as it is.
module _ {W : Type 0} (host : Host W) (m : Object) (s : Client W) (plain : s.extensions ≡ []) where
  apply_from-plain :
      (pick : ℕ → List Extension → Option Extension) (f : ℕ → Option (Callback W)) (rounds : ℕ)
      → 0 < rounds
      → apply_from pick f rounds 0 (some m) s ≡ (s, ok (some m))
  unfolding apply_from
  apply_from-plain pick f zero h = absurd (omega arith)
  apply_from-plain pick f (suc rounds) h = rw plain refl

  pub apply_outgoing-plain : 0 < host.rounds → apply_outgoing_extensions host m s ≡ (s, ok (some m))
  unfolding apply_outgoing_extensions
  apply_outgoing-plain = apply_from-plain _ host.outgoing host.rounds

  pub apply_incoming-plain : 0 < host.rounds → apply_incoming_extensions host m s ≡ (s, ok (some m))
  unfolding apply_incoming_extensions
  apply_incoming-plain = apply_from-plain _ host.incoming host.rounds

alone_found :
    (id delay : ℕ)
    → find_timer id (record { id = id; delay = delay; task = run_connect } ∷ []) ≡ some run_connect
unfolding find_timer
alone_found id delay = ground arith

alone_gone :
    (id delay : ℕ)
    → clear_timeout id (record { id = id; delay = delay; task = run_connect } ∷ []) ≡ []
unfolding clear_timeout
alone_gone id delay = ground arith

-- The envelope that `_send` makes of one message.
abbrev envelope_of : {W : Type 0} → Option String → Object → Client W → Envelope
envelope_of path m s = record { url = request_url s.url path; messages = stamped s m ∷ [] }

-- The envelope of the next connect.
abbrev pub connect_envelope : {W : Type 0} → Value → Client W → Envelope
connect_envelope type s = envelope_of (some "connect") (connect_message type) s

module _ {W V : Type 0} (host : Host W) (t : ℕ) (type : Value) (view : W → V)
    (line : Line host t type view) where
  send-plain :
      (m : Object) (path : Option String) (s : Client W)
      → line.Free (view s.world)
      → s.transport ≡ some t
      → s.extensions ≡ []
      → 0 < host.rounds
      → send host (m ∷ []) true path s ≡ (
        record s {
          message_id = suc s.message_id;
          world = (host.send t (envelope_of path m s) true s.settings s.advice s.world).0;
        },
        ok tt,
      )
  unfolding send prepare stamp deliver transport_send
  send-plain m path s free used plain h =
      let next = record s { message_id = suc s.message_id } in
      rw
        (
          apply_outgoing-plain host (stamped s m) next plain h,
          used,
          line.sends (envelope_of path m s) s.settings s.advice s.world free,
        )
        refl

  -- The client once its connect is sent.
  abbrev pub polling : Client W → Client W
  polling s = record s {
    message_id = suc s.message_id;
    status = connected;
    world = (host.send t (connect_envelope type s) true s.settings s.advice s.world).0;
  }

  connect-sent :
      (s : Client W)
      → line.Free (view s.world)
      → s.transport ≡ some t
      → s.extensions ≡ []
      → 0 < host.rounds
      → connect host s ≡ (polling s, ok tt)
  unfolding connect connect_by set_status
  connect-sent s free used plain h =
      let u = record s { status = connecting } in
      ap (λ o. connect_by host o s) used
      ∙ ap
          (λ type'.
            resume (λ _. modify (set_status connected))
              (send host (connect_message type' ∷ []) true (some "connect") u))
          (line.typed s.world free)
      ∙ ap (resume (λ _. modify (set_status connected)))
          (send-plain (connect_message type) (some "connect") u free used plain h)

  pub fire-sent :
      (id delay : ℕ) (s : Client W)
      → line.Free (view s.world)
      → s.transport ≡ some t
      → s.extensions ≡ []
      → 0 < host.rounds
      → s.timers ≡ record { id = id; delay = delay; task = run_connect } ∷ []
      → fire host id s ≡ (polling (record s { timers = [] }), ok tt)
  unfolding fire forget_timer run_found run_task
  fire-sent id delay s free used plain h waits =
      ap (λ ts. run_found host (find_timer id ts) (record s { timers = clear_timeout id ts })) waits
      ∙ ap (λ o. run_found host o (record s { timers = clear_timeout id (timer ∷ []) })) found
      ∙ ap (λ ts. run_found host (some run_connect) (record s { timers = ts })) gone
      ∙ ap caught (connect-sent (record s { timers = [] }) free used plain h)
    where
      timer : Timer
      timer = record { id = id; delay = delay; task = run_connect }

      found : find_timer id (timer ∷ []) ≡ some run_connect
      found = alone_found id delay

      gone : clear_timeout id (timer ∷ []) ≡ []
      gone = alone_gone id delay
