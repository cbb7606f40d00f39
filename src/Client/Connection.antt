-- ===== src/Client/Connection.antt =====
-- media/js/cometd.js: notification of listeners, and the handshake and connect messages.
use vurs.Prelude.{
  ℕ, zero, suc, String, Bool, true, false, Option, none, some, List, [], ◌∷◌, if◌then◌else◌, ltb,
  length, get_elem?, Outcome, type_error,
}
use vurs.Prelude.Dict
use vurs.Prelude.Int.{pos}
use vurs.Value.{Value, Object, null, str, arr, obj, end, field, mixin, of_strings}
use vurs.Registry.{find_transport_types, negotiate_transport}
use vurs.Listeners.{Subscription, slots_at, clear_subscriptions}
use vurs.Channel.{notified}
use vurs.Client.State.{
  Client, Status, handshaking, connecting, connected, Task, run_connect, run_handshake, Host, M,
  return, throw, modify, with_state, run_out, lift_world, try, ◌>>=◌, ◌>>◌,
}
use vurs.Client.Sending.{is_disconnected, delayed_send, send}

abbrev pub version : String
version = "1.0"

abbrev pub handshake_message : List String → Object
handshake_message types = field "version" (str version) (
    field "minimumVersion" (str "0.9") (
      field "channel" (str "/meta/handshake")
        (field "supportedConnectionTypes" (arr (of_strings types)) end)))

abbrev pub connect_message : Value → Object
connect_message type = field "channel" (str "/meta/connect") (field "connectionType" type end)

abbrev pub chosen : Option (String × ℕ) → Option ℕ
chosen none = none
chosen (some (type, t)) = some t

module _ {W : Type 0} where
  unfoldable pub set_status : Status → Client W → Client W
  set_status st s = record s { status = st }

  abbrev pub lift_outcome : {A : Type 0} → Outcome A → M W A
  lift_outcome r s = (s, r)

  unfoldable pub delayed_connect : Client W → Client W
  unfolding set_status delayed_send
  delayed_connect s = delayed_send run_connect (set_status connecting s)

  unfoldable pub forget_session : Client W → Client W
  forget_session s = record s { client_id = null; listeners = clear_subscriptions s.listeners }

  -- Messages are held until the client is connected.
  unfoldable pub hold_messages : Value → Client W → Client W
  hold_messages props s = record s { batch = pos 0; internal_batch = true; handshake_props = props }

  unfoldable pub begin_handshaking : Option ℕ → Client W → Client W
  begin_handshaking t s = record s { transport = t; status = handshaking }

  unfoldable pub delayed_handshake : Client W → Client W
  unfolding set_status delayed_send
  delayed_handshake s =
      delayed_send run_handshake (record (set_status handshaking s) { internal_batch = true })

  module _ (host : Host W) where
    unfoldable pub call_slot : Option (Option Subscription) → Object → M W (Unit {0})
    call_slot (some (some l)) m = try (host.listener l.scope l.callback m)
    call_slot (some none) m = return tt
    call_slot none m = return tt

    -- The loop of `_notify` from index `i` on, over the array at an address, which a listener may
    -- change.
    unfoldable pub notify_from : ℕ → ℕ → ℕ → Object → M W (Unit {0})
    unfolding call_slot
    notify_from zero a i m = run_out
    notify_from (suc rounds) a i m = with_state λ s.
        let slots = slots_at s.listeners.arrays a in
        let next = call_slot (get_elem? slots i) m >> notify_from rounds a (suc i) m in
        if ltb i (length slots) then next else return tt

    unfoldable pub notify_array : Option ℕ → Object → M W (Unit {0})
    unfolding notify_from
    notify_array none m = return tt
    notify_array (some a) m = notify_from host.rounds a 0 m

    unfoldable pub notify : String → Object → M W (Unit {0})
    unfolding notify_array
    notify channel m = with_state λ s. notify_array (Dict.lookup channel s.listeners.channels) m

    unfoldable pub notify_each : List String → Object → M W (Unit {0})
    unfolding notify
    notify_each [] m = return tt
    notify_each (c ∷ cs) m = notify c m >> notify_each cs m

    unfoldable pub notify_listeners : String → Object → M W (Unit {0})
    unfolding notify_each notified
    notify_listeners channel m = notify_each (notified channel) m

    abbrev pub reset_one : Option ℕ → M W (Unit {0})
    reset_one none = throw type_error
    reset_one (some t) = lift_world (host.reset t)

    -- `_transports.reset()`
    unfoldable pub reset_each : List String → List (String × ℕ) → M W (Unit {0})
    reset_each [] d = return tt
    reset_each (t ∷ ts) d = reset_one (Dict.lookup t d) >> reset_each ts d

    unfoldable pub reset_transports : M W (Unit {0})
    unfolding reset_each
    reset_transports = with_state λ s. reset_each s.transports.types s.transports.transports

    abbrev pub accepts_now : Value → Client W → ℕ → Bool
    accepts_now v s = host.accept v s.cross_domain s.world

    unfoldable pub connect_by : Option ℕ → M W (Unit {0})
    unfolding set_status send
    connect_by none = throw type_error
    connect_by (some t) = with_state λ s.
        modify (set_status connecting)
        >> send host (connect_message (host.get_type s.world t) ∷ []) true (some "connect")
        >> modify (set_status connected)

    -- `_connect`
    unfoldable pub connect : M W (Unit {0})
    unfolding connect_by
    connect = with_state λ s. connect_by s.transport

    -- `_handshake`, from the choice of the transports on.
    unfoldable pub negotiate_and_send : M W (Unit {0})
    unfolding begin_handshaking send find_transport_types negotiate_transport
    negotiate_and_send = with_state λ s.
        lift_outcome (find_transport_types (accepts_now (str version) s) s.transports) >>= λ types.
        lift_outcome (negotiate_transport (accepts_now (str version) s) types s.transports) >>= λ t.
        modify (begin_handshaking (chosen t))
        >> send host (mixin end (s.handshake_props ∷ obj (handshake_message types) ∷ []) ∷ []) false
            (some "handshake")

    -- `_handshake`
    unfoldable pub handshake : Value → M W (Unit {0})
    unfolding forget_session hold_messages reset_transports negotiate_and_send
    handshake props =
        modify forget_session
        >> with_state (λ s. if is_disconnected s.status then reset_transports else return tt)
        >> modify (hold_messages props)
        >> negotiate_and_send

    -- What the function that a delayed send was given runs.
    unfoldable pub run_task : Task → M W (Unit {0})
    unfolding connect handshake
    run_task run_connect = connect
    run_task run_handshake = with_state λ s. handshake s.handshake_props
