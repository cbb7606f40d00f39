-- ===== src/Tests/Subscriptions.antt =====
-- media/js/cometd.js: subscriptions and extensions at fixed inputs.
use vurs.Prelude.{
  ℕ, zero, suc, true, false, Option, some, none, if◌then◌else◌, inl, inr, Bool-cases, arith, ok, [],
  ◌∷◌, ◌≡◌, refl, List,
}
use vurs.Prelude.Dict
use vurs.Value.{undefined, null, bool, str, Object, field, end, get, put, num, is_str}
use vurs.Client.Extensions.{apply_incoming_extensions, apply_outgoing_extensions, result_message}
use vurs.Client.Sound.{IsSound, new-IsSound, unchanged-IsSound, delayed_send-IsSound}
use vurs.Client.Sending.{delayed_send}
use vurs.Client.State.{run_connect, connected}
use vurs.Client.Messages.{disconnect_now}
use vurs.Client.Down.Quiet.{IsIdle, disconnect_now-IsIdle}
use vurs.Client.Numbered.{counted, numbered, send-numbered}
use vurs.Client.Held.{held-sent}
use vurs.Client.Batches.{Script, queues, nests, done, messages, run_script}
use vurs.Client.Sending.{send, deliver, send_all}
use vurs.Client.Connection.{hold_messages, notify_listeners}
use vurs.Client.Responses.{connect_response, connect_action, connect_status, follow_connect}
use vurs.Prelude.Int.{pos}
use vurs.Client.Chain.{Pure, lift, through, applied-through}
use vurs.Listeners.{Handle, nothing, function, has_subscriptions}
use vurs.Listeners
use vurs.Listeners.Laws.{empty-IsWellFormed}
use vurs.Client.State.{Client, Envelope, Host, new, modify, ◌>>◌}
use vurs.Client.Announced.Told.{told}
use vurs.Client.Announced.{Act, subscribes, unsubscribes, act_all, Agrees, act_all-Agrees}
use vurs.Tests.Clients.{calm, defaults, no_methods}

-- A client that holds its messages back, as during a handshake.
abbrev holding : Client (List Envelope)
holding = record (new defaults []) { internal_batch = true }

holding-Agrees : Agrees holding
unfolding new told has_subscriptions Listeners.empty Dict.lookup
holding-Agrees = record { queuing = refl; well_formed = empty-IsWellFormed; agree = λ c. refl }

-- Two listeners of a channel, of which one goes again.
abbrev acts : List Act
acts =
    subscribes "/chat" nothing (function 1) undefined
    ∷ subscribes "/chat" nothing (function 2) undefined
    ∷ unsubscribes (record { channel = "/chat"; index = 0 }) undefined
    ∷ []

act_all-Agrees_example : Agrees (act_all calm no_methods acts holding)
act_all-Agrees_example = act_all-Agrees calm no_methods acts holding holding-Agrees

-- Two extensions: one drops the messages to `/secret`, the other one adds a property.
abbrev filters : Pure
filters m = (m, ok (if is_str "/secret" (get "channel" m) then null else undefined))

abbrev marks : Pure
marks m = (put "marked" (bool true) m, ok undefined)

abbrev pure : ℕ → Option Pure
pure zero = some filters
pure (suc n) = some marks

abbrev extended : Host (List Envelope)
extended = record calm { incoming = λ e. lift (pure e); outgoing = λ e. lift (pure e) }

abbrev with_extensions : Client (List Envelope)
with_extensions = record (new defaults []) {
  extensions =
      record { name = "filter"; extension = 0 } ∷ record { name = "mark"; extension = 1 } ∷ [];
}

abbrev secret : Object
secret = field "channel" (str "/secret") end

applied-through_example :
    (apply_incoming_extensions extended secret with_extensions ≡ (with_extensions, ok none))
    × (apply_outgoing_extensions extended secret with_extensions ≡ (with_extensions, ok none))
unfolding new through get put result_message
applied-through_example =
    applied-through extended pure pure (λ e. refl) (λ e. refl) secret with_extensions (omega arith)

-- What the two extensions make of a message.
abbrev made : Object → Option Object
made m = if is_str "/secret" (get "channel" m) then none else some (put "marked" (bool true) m)

makes : (m : Object) → through pure with_extensions.extensions m ≡ ok (made m)
unfolding through result_message
makes m = elim (Bool-cases (is_str "/secret" (get "channel" m))) [
  | inl e ↦ rw e refl
  | inr e ↦ rw e refl
]

abbrev chat : Object
chat = field "channel" (str "/chat") end

-- The first message is dropped, and the second one has the number 2.
send-numbered_example :
    send extended (secret ∷ chat ∷ []) false none with_extensions
    ≡ deliver extended false none
        (field "channel" (str "/chat") (field "id" (num (pos 2)) (field "marked" (bool true) end))
          ∷ [])
        (counted 2 with_extensions)
unfolding new numbered get put
send-numbered_example =
    send-numbered extended pure pure (λ e. refl) (λ e. refl) made (secret ∷ chat ∷ []) false none
      with_extensions (omega arith) makes

abbrev published : Script
published = queues chat (nests (queues secret done) (queues chat done))

abbrev connect_answer : Object
connect_answer = field "channel" (str "/meta/connect") (field "successful" (bool true) end)

held-sent_example :
    (run_script calm published >> connect_response calm connect_answer)
      (hold_messages undefined (new defaults []))
    ≡ (send_all calm (chat ∷ secret ∷ chat ∷ [])
          >> notify_listeners calm "/meta/connect" connect_answer
          >> modify (follow_connect (connect_action calm (new defaults []))))
        (connect_status calm
          (connect_action calm (new defaults []))
          (record (hold_messages undefined (new defaults [])) {
            internal_batch = false;
            message_queue = [];
          }))
unfolding new messages get
held-sent_example = held-sent calm published undefined connect_answer (new defaults []) refl

-- A connected client with a timeout for its next connect.
abbrev waiting : Client (List Envelope)
waiting =
    delayed_send run_connect (record (new defaults []) { status = connected; transport = some 0 })

waiting-IsSound : IsSound waiting
waiting-IsSound =
    delayed_send-IsSound run_connect _
      (unchanged-IsSound (new defaults []) _ refl refl refl refl (new-IsSound defaults []))

disconnect_now-IsIdle_example : IsIdle calm (disconnect_now calm true waiting).0
unfolding new disconnect_now delayed_send
disconnect_now-IsIdle_example = disconnect_now-IsIdle calm true waiting waiting-IsSound refl
