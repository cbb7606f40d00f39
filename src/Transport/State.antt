-- ===== src/Transport/State.antt =====
-- media/js/cometd.js, org.cometd.Transport: the variables of a transport, the requests that it makes,
-- and the network and browser that it works with.
use vurs.Prelude.{ℕ, String, Bool, Option, none, List, [], Outcome, true}
use vurs.Value.{Value, Object}
use vurs.Client.State.{Envelope}

-- A request is an object whose identity is its id, which no other request of the transport has.
pub record Request : Type 0 where
  pub id : ℕ
  pub longpoll : Bool

-- What an envelope's `onSuccess` or `onFailure` is called with, but for what is only logged.
pub data Answer : Type 0 where
  succeeded : Envelope → Request → Value → Answer
  failed : Envelope → Request → String → Answer

-- The functions given to `setTimeout`: that of `_transportSend`, the one that a polling transport
-- reports a failure by, and that of `_complete`.
pub data Delayed : Type 0 where
  exceed : Envelope → Request → Delayed
  report : Envelope → Request → String → Delayed
  give_up : Envelope → Request → Delayed

pub record Timeout : Type 0 where
  pub id : ℕ
  pub delay : ℕ
  pub task : Delayed

-- The variables of a transport. The properties `expired`, `timeout` and `xhr` of the requests are kept
-- by the request's id. `timers` and `next_timer` belong to the browser, and
-- `supports_cross_domain` to the long-polling transport.
pub record Transport (W : Type 0) : Type 0 where
  pub type : Option String
  pub request_ids : ℕ
  pub longpoll_request : Option Request
  pub requests : List Request
  pub envelopes : List (Envelope × Request)
  pub supports_cross_domain : Bool
  pub expired : List ℕ
  pub timeouts : List (ℕ × ℕ)
  pub xhrs : List (ℕ × ℕ)
  pub timers : List Timeout
  pub next_timer : ℕ
  pub world : W

unfoldable pub new : {W : Type 0} → W → Transport W
new w = record {
  type = none;
  request_ids = 0;
  longpoll_request = none;
  requests = [];
  envelopes = [];
  supports_cross_domain = true;
  expired = [];
  timeouts = [];
  xhrs = [];
  timers = [];
  next_timer = 0;
  world = w;
}

-- What a binding supplies: `xhrSend` and `jsonpSend`, the abort of a request, the JSON writer, and the
-- browser's `encodeURI`. A request is answered later, never before these return.
pub record Network (W : Type 0) : Type 0 where
  pub xhr_send : String → String → Request → W → W × Outcome (Option ℕ)
  pub jsonp_send : String → String → Request → W → W × Outcome (Unit {0})
  pub xhr_abort : ℕ → W → W
  pub to_json : List Object → String
  pub encode_uri : String → String

-- The methods that a transport overrides, `accept`, `transportSend` and `reset`, and the `onError` that
-- its `transportSend` gives to a request.
pub record Kind (W : Type 0) : Type 0 where
  pub accept : Bool → Transport W → Bool
  pub transport_send : Envelope → Request → Transport W → Transport W
  pub on_error : Envelope → Request → String → Transport W → Transport W × Option Answer
  pub reset : Transport W → Transport W
