-- ===== src/Client/Configure.antt =====
-- media/js/cometd.js: `configure` and `init`. The browser's location is a parameter.
pub mod Domain
pub mod Exact
use vurs.Prelude.{
  ℕ, zero, suc, String, Char, code, Bool, true, false, not, Option, none, some, ◌==◌, ◌===◌, ◌&&◌,
  ◌||◌, if◌then◌else◌, leb, message, Exception,
}
use vurs.Prelude.Int.{pos}
use vurs.Value.{Value, Object, bool, num, str, obj, end, field, get}
use vurs.Client.State.{Client, Settings, Host, M, throw, modify, ◌>>◌}
use vurs.Client.Api.{start_handshake}
use Prim.Native.String.{◌++◌ as ◌<>◌}

-- The text after a prefix.
unfoldable pub strip : String → String → Option String
strip String.[] s = some s
strip (String.◌∷◌ c p) String.[] = none
strip (String.◌∷◌ c p) (String.◌∷◌ d s) = if code c == code d then strip p s else none

-- `(^https?:)?`
unfoldable pub after_scheme : String → String
after_scheme url = elim (strip "http:" url) [
  | some rest ↦ rest
  | none ↦ elim (strip "https:" url) [ some rest ↦ rest | none ↦ url ]
]

-- `[^:\/\?#]`
abbrev pub in_host : Char → Bool
in_host c = not (code c == b':' || code c == b'/' || code c == b'?' || code c == b'#')

abbrev pub is_digit : Char → Bool
is_digit c = leb b'0' (code c) && leb (code c) b'9'

-- The longest start whose characters pass the test, and the rest.
unfoldable pub span : (Char → Bool) → String → String × String
span test String.[] = ("", "")
span test (String.◌∷◌ c s) =
    let (start, rest) = span test s in
    if test c then (String.◌∷◌ c start, rest) else ("", String.◌∷◌ c s)

-- `(:(\d+))?`
unfoldable pub port : String → String
unfolding span
port String.[] = ""
port (String.◌∷◌ c s) =
    if code c == b':' && not ((span is_digit s).0 === "") then ":" <> (span is_digit s).0 else ""

-- `([^:\/\?#]+)(:(\d+))?`
abbrev pub host_and_port : String × String → Option String
host_and_port (start, rest) = if start === "" then none else some (start <> port rest)

-- The third group of the regular expression.
unfoldable pub authority : String → Option String
authority url = elim (strip "//" (after_scheme url)) [
  | none ↦ none
  | some rest ↦ host_and_port (span in_host rest)
]

-- `urlParts[3] && urlParts[3] != window.location.host`
unfoldable pub is_cross_domain : String → String → Bool
is_cross_domain location url = elim (authority url) [
  | none ↦ false
  | some host ↦ not (host === location)
]

-- The old style of parameter is the URL alone. What has no properties counts as an object without.
abbrev pub configuration_of : Value → Object
configuration_of (str url) = field "url" (str url) end
configuration_of (obj o) = o
configuration_of _ = end

-- A URL that is no text counts as none.
abbrev pub url_of : Value → String
url_of (str url) = url
url_of _ = ""

-- `v || d`, for a setting that is a number above zero when it is given.
abbrev pub or_default : ℕ → Value → ℕ
or_default d (num (pos (suc n))) = suc n
or_default d _ = d

abbrev pub is_false : Value → Bool
is_false (bool b) = not b
is_false _ = false

abbrev pub no_url : Exception
no_url = message "Missing required configuration parameter 'url'"

module _ {W : Type 0} (location : String) where
  unfoldable pub configured : Object → Client W → Client W
  configured c s = record s {
    settings = record {
      url = url_of (get "url" c);
      max_connections = or_default 2 (get "maxConnections" c);
      backoff_increment = or_default 1000 (get "backoffIncrement" c);
      max_backoff = or_default 60000 (get "maxBackoff" c);
      max_network_delay = or_default 10000 (get "maxNetworkDelay" c);
      reverse_incoming_extensions = not (is_false (get "reverseIncomingExtensions" c));
      cross_domain = is_cross_domain location (url_of (get "url" c));
    };
  }

  unfoldable pub forget_url : Client W → Client W
  forget_url s = record s { settings = record s.settings { url = "" } }

  -- `_configure`
  unfoldable pub configure : Value → M W (Unit {0})
  unfolding configured forget_url get
  configure v =
      if url_of (get "url" (configuration_of v)) === ""
      then modify forget_url >> throw no_url
      else modify (configured (configuration_of v))

  unfoldable pub init : Host W → Value → Value → M W (Unit {0})
  unfolding configure start_handshake
  init host v props = configure v >> start_handshake host props
