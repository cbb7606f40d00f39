-- ===== src/Client/Api.antt =====
-- media/js/cometd.js: the public methods of a client.
use vurs.Prelude.{
  ℕ, String, Bool, true, false, not, Option, none, some, List, [], ◌∷◌, ◌++◌, ◌==◌, if◌then◌else◌,
  Outcome, ok, thrown, unfinished,
}
use vurs.Value.{Value, Object, str, obj, end, field, mixin}
use vurs.Registry.{Registry}
use vurs.Registry
use vurs.Listeners.{Argument, Delegate, Handle, resolve_scoped_callback, has_subscriptions}
use vurs.Listeners
use vurs.Client.State.{
  Client, disconnected, disconnecting, Timer, Task, Host, M, return, throw, modify, with_state,
  lift_world, try, ◌>>=◌, ◌>>◌,
}
use vurs.Client.Extensions.{has_extension, remove_extension, find_extension}
use vurs.Client.Sending.{is_disconnected, clear_timeout, start_batch, end_batch, queue_send, send}
use vurs.Client.Connection.{set_status, lift_outcome, run_task}
use vurs.Client.Connection

abbrev pub disconnect_message : Object
disconnect_message = field "channel" (str "/meta/disconnect") end

abbrev pub subscribe_message : String → Object
subscribe_message c = field "channel" (str "/meta/subscribe") (field "subscription" (str c) end)

abbrev pub unsubscribe_message : String → Object
unsubscribe_message c = field "channel" (str "/meta/unsubscribe") (field "subscription" (str c) end)

abbrev pub publish_message : String → Value → Object
publish_message c content = field "channel" (str c) (field "data" content end)

-- The message that a caller's properties and the required ones make.
abbrev pub with_props : Value → Object → Object
with_props props required = mixin end (props ∷ obj required ∷ [])

-- The timeout with the given id.
unfoldable pub find_timer : ℕ → List Timer → Option Task
find_timer id [] = none
find_timer id (t ∷ ts) = if t.id == id then some t.task else find_timer id ts

module _ {W : Type 0} where
  -- The start of `handshake`.
  unfoldable pub forget_handshake : Client W → Client W
  forget_handshake s = record s { status = disconnected; reestablish = false }

  unfoldable pub push_extension : String → ℕ → Client W → Client W
  push_extension n e s = record s {
    extensions = s.extensions ++ record { name = n; extension = e } ∷ [];
  }

  unfoldable pub drop_extension : String → Client W → Client W
  unfolding remove_extension
  drop_extension n s = record s { extensions = remove_extension n s.extensions }

  abbrev pub set_transports : Registry ℕ → Client W → Client W
  set_transports r s = record s { transports = r }

  unfoldable pub forget_timer : ℕ → Client W → Client W
  unfolding clear_timeout
  forget_timer id s = record s { timers = clear_timeout id s.timers }

  unfoldable pub set_backoff_increment : ℕ → Client W → Client W
  set_backoff_increment period s = record s {
    settings = record s.settings { backoff_increment = period };
  }

  unfoldable pub remove_listener : Handle → Client W → Client W
  remove_listener h s = record s { listeners = Listeners.remove_listener h s.listeners }

  unfoldable pub clear_listeners : Client W → Client W
  clear_listeners s = record s { listeners = Listeners.clear_listeners s.listeners }

  unfoldable pub clear_subscriptions : Client W → Client W
  clear_subscriptions s = record s { listeners = Listeners.clear_subscriptions s.listeners }

  unfoldable pub register_delegate : String → Bool → Delegate → M W Handle
  register_delegate channel is_subscription d s =
      let (l, h) = Listeners.add_listener channel d is_subscription s.listeners in
      (record s { listeners = l }, ok h)

  module _ (method_of : Argument → String → Option ℕ) where
    -- `addListener`, on a channel that is a string.
    unfoldable pub add_listener : String → Argument → Argument → M W Handle
    unfolding register_delegate resolve_scoped_callback
    add_listener channel scope callback =
        lift_outcome (resolve_scoped_callback method_of scope callback)
        >>= register_delegate channel false

  module _ (host : Host W) where
    unfoldable pub register_extension : String → ℕ → M W Bool
    unfolding has_extension push_extension
    register_extension n e = with_state λ s.
        if has_extension n s.extensions
        then return false
        else (modify (push_extension n e) >> host.extension_registered e n >> return true)

    unfoldable pub forget_extension : String → Option ℕ → M W Bool
    unfolding drop_extension
    forget_extension n none = return false
    forget_extension n (some e) =
        modify (drop_extension n) >> host.extension_unregistered e >> return true

    unfoldable pub unregister_extension : String → M W Bool
    unfolding find_extension forget_extension
    unregister_extension n = with_state λ s. forget_extension n (find_extension n s.extensions)

    unfoldable pub register_transport : String → ℕ → Option ℕ → M W Bool
    unfolding Registry.add
    register_transport type t index = with_state λ s.
        let (r, added) = Registry.add type t index s.transports in
        if added
        then (modify (set_transports r)
            >> lift_world (host.transport_registered t type)
            >> return true)
        else return false

    unfoldable pub tell_unregistered : Option ℕ → M W (Option ℕ)
    tell_unregistered none = return none
    tell_unregistered (some t) = lift_world (host.transport_unregistered t) >> return (some t)

    unfoldable pub unregister_transport : String → M W (Option ℕ)
    unfolding Registry.remove tell_unregistered
    unregister_transport type = with_state λ s.
        let (r, removed) = Registry.remove type s.transports in
        modify (set_transports r) >> tell_unregistered removed

    -- `handshake`
    unfoldable pub start_handshake : Value → M W (Unit {0})
    unfolding forget_handshake Connection.handshake
    start_handshake props = modify forget_handshake >> Connection.handshake host props

    unfoldable pub disconnect : Value → M W (Unit {0})
    unfolding set_status send
    disconnect props = with_state λ s.
        if is_disconnected s.status
        then return tt
        else (modify (set_status disconnecting)
            >> send host (with_props props disconnect_message ∷ []) false (some "disconnect"))

    -- The handler of `batch`: it ends the batch and throws again.
    unfoldable pub end_and_rethrow : Client W × Outcome (Unit {0}) → Client W × Outcome (Unit {0})
    unfolding end_batch
    end_and_rethrow (s, ok a) = (s, ok a)
    end_and_rethrow (s, thrown e) = (end_batch host >> throw e) s
    end_and_rethrow (s, unfinished) = (s, unfinished)

    unfoldable pub run_batch : Delegate → M W (Unit {0})
    unfolding start_batch end_and_rethrow
    run_batch d s = end_and_rethrow ((host.call d.scope d.method >> end_batch host) (start_batch s))

    unfoldable pub publish : String → Value → Value → M W (Unit {0})
    unfolding queue_send
    publish channel content props =
        queue_send host (with_props props (publish_message channel content))

    unfoldable pub unsubscribe : Handle → Value → M W (Unit {0})
    unfolding remove_listener queue_send
    unsubscribe h props =
        modify (remove_listener h)
        >> with_state λ s.
          if has_subscriptions h.channel s.listeners
          then return tt
          else queue_send host (with_props props (unsubscribe_message h.channel))

    -- What `subscribe` sends, given whether the channel had no listener.
    unfoldable pub announce : Bool → String → Value → M W (Unit {0})
    unfolding queue_send
    announce false channel props = return tt
    announce true channel props = queue_send host (with_props props (subscribe_message channel))

    module _ (method_of : Argument → String → Option ℕ) where
      unfoldable pub batch : Argument → Argument → M W (Unit {0})
      unfolding resolve_scoped_callback run_batch
      batch scope callback =
          lift_outcome (resolve_scoped_callback method_of scope callback) >>= run_batch

      -- `subscribe` with its arguments in place: a scope that is a function is moved by the caller's
      -- `_resolveScopedCallback` too.
      unfoldable pub subscribe : String → Argument → Argument → Value → M W Handle
      unfolding announce register_delegate resolve_scoped_callback
      subscribe channel scope callback props = with_state λ s.
          lift_outcome (resolve_scoped_callback method_of scope callback)
          >>= register_delegate channel true
          >>= λ h. announce (not (has_subscriptions channel s.listeners)) channel props >> return h

    unfoldable pub run_found : Option Task → M W (Unit {0})
    unfolding run_task
    run_found none = return tt
    run_found (some task) = try (run_task host task)

    -- A timeout fires: it is gone, and what its function throws is caught.
    unfoldable pub fire : ℕ → M W (Unit {0})
    unfolding find_timer forget_timer run_found
    fire id = with_state λ s. modify (forget_timer id) >> run_found (find_timer id s.timers)
