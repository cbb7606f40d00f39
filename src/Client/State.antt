-- ===== src/Client/State.antt =====
-- media/js/cometd.js, org.cometd.Cometd: the variables of a client, the code around it that it calls,
-- and the monad of its functions, in which an exception keeps the state that it was thrown in.
use vurs.Prelude.{
  ℕ, String, Bool, false, Option, none, List, [], Outcome, ok, thrown, unfinished, Exception,
}
use vurs.Prelude.Int.{ℤ, pos}
use vurs.Value.{Value, Object, undefined, null, end}
use vurs.Registry.{Registry}
use vurs.Registry
use vurs.Listeners.{Listeners, Argument}
use vurs.Listeners

pub data Status : Type 0 where
  disconnected handshaking connecting connected disconnecting : Status

-- The settings that `configure` and `setBackoffIncrement` write. Periods are milliseconds.
pub record Settings : Type 0 where
  pub url : String
  pub max_connections : ℕ
  pub backoff_increment : ℕ
  pub max_backoff : ℕ
  pub max_network_delay : ℕ
  pub reverse_incoming_extensions : Bool
  pub cross_domain : Bool

-- What a delayed send runs.
pub data Task : Type 0 where
  run_connect run_handshake : Task

-- A timeout that is set and has neither fired nor been cleared.
pub record Timer : Type 0 where
  pub id : ℕ
  pub delay : ℕ
  pub task : Task

pub record Extension : Type 0 where
  pub name : String
  pub extension : ℕ

pub record Envelope : Type 0 where
  pub url : String
  pub messages : List Object

-- The variables of the constructor. Transports, extensions and the page's functions are numbers; the
-- state that their own code keeps is the `world`. `timers` and `next_timer` belong to the browser.
pub record Client (W : Type 0) : Type 0 where
  pub settings : Settings
  pub open settings use *
  pub transports : Registry ℕ
  pub transport : Option ℕ
  pub status : Status
  pub message_id : ℕ
  pub client_id : Value
  pub batch : ℤ
  pub message_queue : List Object
  pub internal_batch : Bool
  pub listeners : Listeners
  pub backoff : ℕ
  pub scheduled_send : Option ℕ
  pub extensions : List Extension
  pub advice : Object
  pub handshake_props : Value
  pub reestablish : Bool
  pub timers : List Timer
  pub next_timer : ℕ
  pub world : W

unfoldable pub new : {W : Type 0} → Settings → W → Client W
new s w = record {
  settings = s;
  transports = Registry.empty;
  transport = none;
  status = disconnected;
  message_id = 0;
  client_id = null;
  batch = pos 0;
  message_queue = [];
  internal_batch = false;
  listeners = Listeners.empty;
  backoff = 0;
  scheduled_send = none;
  extensions = [];
  advice = end;
  handshake_props = undefined;
  reestablish = false;
  timers = [];
  next_timer = 0;
  world = w;
}

-- A function of the client: it changes the client's variables, and returns or throws.
abbrev pub M : Type 0 → Type 0 → Type 0
M W A = Client W → Client W × Outcome A

module _ {W A B : Type 0} where
  abbrev pub resume : (A → M W B) → Client W × Outcome A → Client W × Outcome B
  resume f (s, ok a) = f a s
  resume f (s, thrown e) = (s, thrown e)
  resume f (s, unfinished) = (s, unfinished)

infixl 5 ◌>>=◌ ◌>>◌
abbrev pub ◌>>=◌ : {W A B : Type 0} → M W A → (A → M W B) → M W B
◌>>=◌ m f s = resume f (m s)

abbrev pub ◌>>◌ : {W B : Type 0} → M W (Unit {0}) → M W B → M W B
◌>>◌ m k s = resume (λ _. k) (m s)

abbrev pub return : {W A : Type 0} → A → M W A
return a s = (s, ok a)

abbrev pub throw : {W A : Type 0} → Exception → M W A
throw e s = (s, thrown e)

abbrev pub modify : {W : Type 0} → (Client W → Client W) → M W (Unit {0})
modify f s = (f s, ok tt)

-- A loop that has no round left.
abbrev pub run_out : {W A : Type 0} → M W A
run_out s = (s, unfinished)

-- What a function does that depends on the variables as they are now.
abbrev pub with_state : {W A : Type 0} → (Client W → M W A) → M W A
with_state f s = f s s

-- `try { m } catch (x) { … }` where the handler only writes to the console.
abbrev pub caught : {W : Type 0} → Client W × Outcome (Unit {0}) → Client W × Outcome (Unit {0})
caught (s, ok a) = (s, ok tt)
caught (s, thrown e) = (s, ok tt)
caught (s, unfinished) = (s, unfinished)

abbrev pub try : {W : Type 0} → M W (Unit {0}) → M W (Unit {0})
try m s = caught (m s)

-- A function of an extension.
abbrev pub Callback : Type 0 → Type 0
Callback W = Object → Client W → Client W × Object × Outcome Value

-- The code that the client calls and that stands outside it. A transport's methods work on the
-- `world`, since they answer by a timeout or a response and never before they return. A listener and
-- an extension may use the client's own methods. `incoming` and `outgoing` are `none` for an
-- extension without that function; they return the message that they were given, as
-- they leave it, and their result. A `registered` or `unregistered` that is missing returns at
-- once. `rounds` bounds the rounds of a loop over an array that its body may lengthen.
pub record Host (W : Type 0) : Type 0 where
  pub accept : Value → Bool → W → ℕ → Bool
  pub get_type : W → ℕ → Value
  pub send : ℕ → Envelope → Bool → Settings → Object → W → W × Outcome (Unit {0})
  pub complete : ℕ → ℕ → Bool → Bool → Settings → Object → W → W × Outcome (Unit {0})
  pub abort : ℕ → W → W × Outcome (Unit {0})
  pub reset : ℕ → W → W × Outcome (Unit {0})
  pub listener : Argument → ℕ → Object → M W (Unit {0})
  pub call : Argument → ℕ → M W (Unit {0})
  pub incoming : ℕ → Option (Callback W)
  pub outgoing : ℕ → Option (Callback W)
  pub extension_registered : ℕ → String → M W (Unit {0})
  pub extension_unregistered : ℕ → M W (Unit {0})
  pub transport_registered : ℕ → String → W → W × Outcome (Unit {0})
  pub transport_unregistered : ℕ → W → W × Outcome (Unit {0})
  pub rounds : ℕ

-- A call of a transport's method.
abbrev pub lift_world : {W : Type 0} → (W → W × Outcome (Unit {0})) → M W (Unit {0})
lift_world f s = let (w, r) = f s.world in (record s { world = w }, r)
