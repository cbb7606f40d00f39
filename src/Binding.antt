-- ===== src/Binding.antt =====
-- media/js/jquery/jquery.cometd.js: the client's transports over jQuery. `$.ajax`, the JSON functions
-- and `encodeURI` are parameters.
pub mod Choice
pub mod Extensions
use vurs.Prelude.{
  ℕ, ◌+◌, ◌-◌, String, Char, code, Bool, true, false, ◌||◌, Option, none, some, List, [], ◌∷◌, ◌&&◌,
  ◌===◌, if◌then◌else◌, leb, ltb, Outcome, ok, thrown, unfinished,
}
use vurs.Value.{Value, Object}
use vurs.Registry.{Registry}
use vurs.Registry
use vurs.Transport.State.{Request, Transport, Kind, Network}
use vurs.Transport.State
use vurs.Transport.Polling.{long_polling, callback_polling}

-- What `$.ajax` is called with, but for the two callbacks: `jsonp` marks the data type of a callback
-- poll, whose body is the parameter `message`. `headers` are those that `beforeSend` sets.
pub record Call : Type 0 where
  pub url : String
  pub post : Bool
  pub content_type : Option String
  pub jsonp : Bool
  pub body : String
  pub headers : List (String × String)

pub record Page (W : Type 0) : Type 0 where
  pub ajax : Call → Request → W → W × Outcome (Option ℕ)
  pub xhr_abort : ℕ → W → W
  pub to_json : List Object → String
  pub encode_uri : String → String

-- Whether a letter of a text is the given small letter, in either case: `toLowerCase` on ASCII.
abbrev pub lower : ℕ → ℕ
lower c = if leb b'A' c && leb c b'Z' then c + 32 else c

unfoldable pub same_letters : String → String → Bool
same_letters String.[] String.[] = true
same_letters String.[] (String.◌∷◌ d t) = false
same_letters (String.◌∷◌ c s) String.[] = false
same_letters (String.◌∷◌ c s) (String.◌∷◌ d t) =
    if ltb (lower (code c)) (code d) || ltb (code d) (lower (code c))
    then false
    else same_letters s t

-- `_setHeaders`
unfoldable pub set_headers : List (String × String) → List (String × String)
unfolding same_letters
set_headers [] = []
set_headers ((name, value) ∷ rest) =
    let others = set_headers rest in
    if same_letters name "content-type" then others else (name, value) ∷ others

-- A transport with its methods.
abbrev pub Registered : Type 0 → Type 0
Registered W = Kind W × Transport W

module _ {W : Type 0} where
  abbrev pub without_result : W × Outcome (Option ℕ) → W × Outcome (Unit {0})
  without_result (w, ok r) = (w, ok tt)
  without_result (w, thrown x) = (w, thrown x)
  without_result (w, unfinished) = (w, unfinished)

  -- `xhrSend` and `jsonpSend`
  unfoldable pub network : Page W → List (String × String) → Network W
  unfolding set_headers
  network page headers = record {
    xhr_send = λ url body r w.
        page.ajax
          (record {
            url = url;
            post = true;
            content_type = some "application/json";
            jsonp = false;
            body = body;
            headers = set_headers headers;
          })
          r w;
    jsonp_send = λ url body r w. without_result (
        page.ajax
          (record {
            url = url;
            post = false;
            content_type = none;
            jsonp = true;
            body = body;
            headers = set_headers headers;
          })
          r w);
    xhr_abort = page.xhr_abort;
    to_json = page.to_json;
    encode_uri = page.encode_uri;
  }

  -- The two registrations at the end of the file.
  unfoldable pub registered : Network W → Transport W → Transport W → Registry (Registered W)
  unfolding long_polling callback_polling Registry.add Registry.empty
  registered n polling callback =
      (Registry.add "callback-polling" (callback_polling n, callback) none
        (Registry.add "long-polling" (long_polling n, polling) none Registry.empty).0).0
