-- ===== src/Client/Keeps/Steps.antt =====
-- media/js/cometd.js: the changes of state that a client's functions are made of, and what a response
-- or a failure makes of them, for an invariant that they keep.
use vurs.Prelude.{ℕ, String, Bool, true, false, Option, if◌then◌else◌}
use vurs.Value.{Value, Object, is_str}
use vurs.Registry
use vurs.Listeners.{Delegate, Handle}
use vurs.Client.State.{
  Client, Host, Status, Task, run_connect, run_handshake, handshaking, connecting, disconnected,
}
use vurs.Client.Keeps.Sending.{Delivers}
use vurs.Client.Sending.{
  is_disconnected, reset_backoff, increase_backoff, delayed_send, cancel_delayed_send, start_batch,
}
use vurs.Client.Connection.{
  set_status, delayed_connect, delayed_handshake, forget_session, hold_messages, begin_handshaking,
}
use vurs.Client.Responses.{
  action_of, remember_handshake, follow_handshake, retry_handshake, follow_connect,
  follow_unsuccessful_connect, follow_connect_failure,
}
use vurs.Client.Messages.{forget_connection, take_advice}
use vurs.Client.Api

-- The invariant holds on after each change that a client makes to its variables, and after each call
-- of a transport's method.
pub record Respects {W : Type 0} (I : Client W → Type 0) (host : Host W) : Type 0 where
  pub delivers : Delivers I host
  pub set_status : (st : Status) (s : Client W) → I s → I (set_status st s)
  pub reset_backoff : (s : Client W) → I s → I (reset_backoff s)
  pub increase_backoff : (s : Client W) → I s → I (increase_backoff s)
  pub delayed_send : (task : Task) (s : Client W) → I s → I (delayed_send task s)
  pub cancel_delayed_send : (s : Client W) → I s → I (cancel_delayed_send s)
  pub internal_batch : (s : Client W) (b : Bool) → I s → I (record s { internal_batch = b })
  pub transport : (s : Client W) (t : Option ℕ) → I s → I (record s { transport = t })
  pub client_id : (s : Client W) (v : Value) → I s → I (record s { client_id = v })
  pub hold_messages : (props : Value) (s : Client W) → I s → I (hold_messages props s)
  pub begin_handshaking : (t : Option ℕ) (s : Client W) → I s → I (begin_handshaking t s)
  pub remember_handshake : (s : Client W) → I s → I (remember_handshake s)
  pub forget_handshake : (s : Client W) → I s → I (Api.forget_handshake s)
  pub forget_session : (s : Client W) → I s → I (forget_session s)
  pub forget_connection : (s : Client W) → I s → I (forget_connection s)
  pub forget_timer : (id : ℕ) (s : Client W) → I s → I (Api.forget_timer id s)
  pub take_advice : (m : Object) (s : Client W) → I s → I (take_advice host m s)
  pub push_extension : (n : String) (e : ℕ) (s : Client W) → I s → I (Api.push_extension n e s)
  pub drop_extension : (n : String) (s : Client W) → I s → I (Api.drop_extension n s)
  pub start_batch : (s : Client W) → I s → I (start_batch s)
  pub remove_listener : (h : Handle) (s : Client W) → I s → I (Api.remove_listener h s)
  pub register_delegate :
      (c : String) (b : Bool) (d : Delegate) (s : Client W)
      → I s
      → I (Api.register_delegate c b d s).0
  pub clear_listeners : (s : Client W) → I s → I (Api.clear_listeners s)
  pub clear_subscriptions : (s : Client W) → I s → I (Api.clear_subscriptions s)
  pub set_backoff_increment :
      (period : ℕ) (s : Client W) → I s → I (Api.set_backoff_increment period s)
  pub add_transport :
      (type : String) (t : ℕ) (index : Option ℕ) (s : Client W)
      → I s
      → I (Api.set_transports (Registry.add type t index s.transports).0 s)
  pub remove_transport :
      (type : String) (s : Client W)
      → I s
      → I (Api.set_transports (Registry.remove type s.transports).0 s)
  pub completed :
      (t request : ℕ) (success longpoll : Bool) (s : Client W)
      → I s
      → I (record s {
        world = (host.complete t request success longpoll s.settings s.advice s.world).0;
      })
  pub aborted : (t : ℕ) (s : Client W) → I s → I (record s { world = (host.abort t s.world).0 })
  pub was_reset : (t : ℕ) (s : Client W) → I s → I (record s { world = (host.reset t s.world).0 })
  pub transport_registered :
      (t : ℕ) (type : String) (s : Client W)
      → I s
      → I (record s { world = (host.transport_registered t type s.world).0 })
  pub transport_unregistered :
      (t : ℕ) (s : Client W)
      → I s
      → I (record s { world = (host.transport_unregistered t s.world).0 })

pub pick : {A : Type 0} (I : A → Type 0) (b : Bool) (s t : A) → I s → I t → I (if b then s else t)
pick I true s t i j = i
pick I false s t i j = j

module _ {W : Type 0} {I : Client W → Type 0} (host : Host W) (steps : Respects I host) where
  delayed_connect-keeps : (s : Client W) → I s → I (delayed_connect s)
  unfolding delayed_connect
  delayed_connect-keeps s i = steps.delayed_send run_connect _ (steps.set_status connecting s i)

  delayed_handshake-keeps : (s : Client W) → I s → I (delayed_handshake s)
  unfolding delayed_handshake
  delayed_handshake-keeps s i =
      steps.delayed_send run_handshake _
        (steps.internal_batch _ true (steps.set_status handshaking s i))

  pub follow_handshake-keeps : (action : Value) (s : Client W) → I s → I (follow_handshake action s)
  unfolding follow_handshake
  follow_handshake-keeps action s i =
      pick I (is_str "retry" action) _ _ (delayed_connect-keeps s i) i

  pub retry_handshake-keeps : (retry : Bool) (s : Client W) → I s → I (retry_handshake retry s)
  unfolding retry_handshake
  retry_handshake-keeps retry s i =
      pick I retry _ _ (delayed_handshake-keeps _ (steps.increase_backoff s i)) i

  pub follow_connect-keeps : (action : Value) (s : Client W) → I s → I (follow_connect action s)
  unfolding follow_connect
  follow_connect-keeps action s i =
      let j = steps.reset_backoff s i in
      pick I (is_str "retry" action) _ _ (delayed_connect-keeps _ j)
        (steps.set_status disconnected _ j)

  pub follow_unsuccessful_connect-keeps :
      (action : Value) (s : Client W) → I s → I (follow_unsuccessful_connect action s)
  unfolding follow_unsuccessful_connect
  follow_unsuccessful_connect-keeps action s i =
      let j = steps.reset_backoff s i in
      pick I (is_str "retry" action) _ _ (delayed_connect-keeps _ (steps.increase_backoff s i)) (
        pick I (is_str "handshake" action) _ _ (delayed_handshake-keeps _ j)
          (pick I (is_str "none" action) _ _ (steps.set_status disconnected _ j) i))

  pub follow_connect_failure-keeps : (s : Client W) → I s → I (follow_connect_failure s)
  unfolding follow_connect_failure
  follow_connect_failure-keeps s i =
      let j = steps.reset_backoff s i in
      let action = action_of s.advice in
      pick I (is_disconnected s.status) _ _ i (
        pick I (is_str "retry" action) _ _ (delayed_connect-keeps _ (steps.increase_backoff s i)) (
          pick I (is_str "handshake" action) _ _ (delayed_handshake-keeps _ j)
            (pick I (is_str "none" action) _ _ j i)))
