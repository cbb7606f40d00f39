-- ===== src/Client/Joined.antt =====
-- media/js/cometd.js: a client together with its transports, the page's own code left aside.
pub mod Bounded
pub mod Polled
pub mod Cycle
pub mod Failing
use vurs.Prelude.{
  ℕ, String, Bool, Option, none, some, List, [], ◌∷◌, ◌==◌, if◌then◌else◌, Outcome, ok,
}
use vurs.Value.{Value, Object, null, str}
use vurs.Listeners.{Argument}
use vurs.Client.State.{Client, Host}
use vurs.Client.Configure
use vurs.Client.Events
use vurs.Transport.State.{Transport, Network, Kind}
use vurs.Transport.Requests

-- The transports of a client, by their numbers.
abbrev pub World : Type 0 → Type 0
World V = ℕ → Transport V

abbrev pub type_value : Option String → Value
type_value none = null
type_value (some type) = str type

-- A method of a transport, which changes that transport alone.
unfoldable pub call_one :
    {V : Type 0}
    → ℕ
    → (Transport V → Transport V × Outcome (Unit {0}))
    → World V
    → World V × Outcome (Unit {0})
call_one n f w = let (t, r) = f (w n) in (λ k. if k == n then t else w k, r)

-- What happens to a client or to one of its transports. The page calls `configure` or `init` with the host
-- of its location.
pub data Step : Type 0 where
  configures : String → Value → Step
  inits : String → Value → Value → Step
  acts : Events.Event → Step
  happens : ℕ → Requests.Event → Step

module _ {V : Type 0} (network : Network V) (kinds : ℕ → Kind V) where
  -- The page's code, with the transports' own methods in place of the ones that it stands for.
  unfoldable pub with_transports : Host (World V) → Host (World V)
  unfolding call_one Requests.send Requests.complete Requests.abort Requests.registered
      Requests.unregistered
  with_transports page = record page {
    accept = λ version cross_domain w t. (kinds t).accept cross_domain (w t);
    get_type = λ w t. type_value (w t).type;
    send = λ t e longpoll settings advice.
        call_one t (Requests.send (kinds t) settings advice e longpoll);
    complete = λ t request success longpoll settings advice. call_one t (
        Requests.complete (kinds t) settings advice (record { id = request; longpoll = longpoll })
          success longpoll);
    abort = λ t. call_one t (λ u. (Requests.abort network (kinds t) u, ok tt));
    reset = λ t. call_one t (λ u. ((kinds t).reset u, ok tt));
    transport_registered = λ t type. call_one t (λ u. (Requests.registered type u, ok tt));
    transport_unregistered = λ t. call_one t (λ u. (Requests.unregistered u, ok tt));
  }

  module _ (page : Host (World V)) (method_of : Argument → String → Option ℕ)
      (parse : String → Outcome Value) where
    unfoldable pub move : Step → Client (World V) → Client (World V)
    unfolding with_transports Configure.configure Configure.init
    move (configures location v) s = (Configure.configure location v s).0
    move (inits location v props) s = (Configure.init location (with_transports page) v props s).0
    move (acts e) s = (Events.perform (with_transports page) method_of parse e s).0
    move (happens t e) s = record s {
      world =
          (call_one t (λ u. (Requests.perform network (kinds t) s.settings s.advice e u, ok tt))
            s.world).0;
    }

    unfoldable pub move_all : List Step → Client (World V) → Client (World V)
    unfolding move
    move_all [] s = s
    move_all (e ∷ es) s = move_all es (move e s)
