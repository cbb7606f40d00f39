-- ===== src/Client/Configure/Domain.antt =====
-- media/js/cometd.js: when a URL is of another domain.
use vurs.Prelude.{
  ◌≡◌, refl, sym, ap, ◌∙◌, ◌⊎◌, inl, inr, String, Char, Bool, true, false, not, Option, none, some,
  if◌then◌else◌, ◌&&◌, ◌===◌, ◌==◌, code, arith,
}
use vurs.Client.Configure.{strip, after_scheme, in_host, is_digit, span, port, authority}
use Prim.Native.String.{◌++◌ as ◌<>◌}
use Prim.Native.String.append
use text.Mathlib.TextLemmas.{append_assoc}

-- Every character of the text passes the test.
abbrev pub Every : (Char → Bool) → String → Type 0
Every test String.[] = Unit {0}
Every test (String.◌∷◌ c s) = (test c ≡ true) × Every test s

-- The text is empty or starts with a character that fails the test.
abbrev pub Stops : (Char → Bool) → String → Type 0
Stops test String.[] = Unit {0}
Stops test (String.◌∷◌ c s) = test c ≡ false

strip-append : (p s : String) → strip p (p <> s) ≡ some s
unfolding strip
strip-append String.[] s = rw (append.nil s)
strip-append (String.◌∷◌ c p) s = rw (append.cons c p s) (ground (arith, strip-append p s))

span-append :
    (test : Char → Bool) (s rest : String)
    → Every test s
    → Stops test rest
    → span test (s <> rest) ≡ (s, rest)
unfolding span
span-append test String.[] String.[] e h = rw (append.nil "")
span-append test String.[] (String.◌∷◌ c rest) e h = rw (append.nil (String.◌∷◌ c rest), h)
span-append test (String.◌∷◌ c s) rest e h =
    rw (append.cons c s rest, span-append test s rest e.1 h, e.0) refl

-- What a URL may start with, `none` being no scheme.
pub data Scheme : Type 0 where
  relative http https : Scheme

abbrev pub scheme_text : Scheme → String
scheme_text relative = ""
scheme_text http = "http:"
scheme_text https = "https:"

no_http : (s : String) → strip "http:" ("https:" <> s) ≡ none
unfolding strip
no_http s =
    rw
      (
        append.cons "h" "ttps:" s,
        append.cons "t" "tps:" s,
        append.cons "t" "ps:" s,
        append.cons "p" "s:" s,
        append.cons "s" ":" s,
      )
      refl

no_scheme : (s : String) → (strip "http:" ("//" <> s) ≡ none) × (strip "https:" ("//" <> s) ≡ none)
unfolding strip
no_scheme s = rw (append.cons "/" "/" s) (refl, refl)

after_scheme-none : (s : String) → after_scheme ("//" <> s) ≡ "//" <> s
unfolding after_scheme
after_scheme-none s = rw ((no_scheme s).0, (no_scheme s).1, after_scheme) refl

after_scheme-slashes :
    (k : Scheme) (s : String) → after_scheme (scheme_text k <> ("//" <> s)) ≡ "//" <> s
unfolding after_scheme
after_scheme-slashes relative s = rw (append.nil ("//" <> s)) (after_scheme-none s)
after_scheme-slashes http s = rw (strip-append "http:" ("//" <> s), after_scheme) refl
after_scheme-slashes https s =
    rw (no_http ("//" <> s), strip-append "https:" ("//" <> s), after_scheme) refl

-- The text of a port starts with a colon.
pub colon : (d rest : String) → (":" <> d) <> rest ≡ String.◌∷◌ ":" (d <> rest)
colon d rest = rw (append.cons ":" "" d, append.nil d, append.cons ":" d rest) refl

-- A host, and the digits of its port if it names one.
pub record Authority : Type 0 where
  pub host : String
  pub digits : Option String

abbrev pub port_text : Option String → String
port_text none = ""
port_text (some d) = ":" <> d

abbrev pub authority_text : Authority → String
authority_text a = a.host <> port_text a.digits

abbrev pub IsPort : Option String → Type 0
IsPort none = Unit {0}
IsPort (some d) = Every is_digit d × ((d === "") ≡ false)

pub record IsAuthority (a : Authority) : Type 0 where
  pub letters : Every in_host a.host
  pub named : (a.host === "") ≡ false
  pub numbered : IsPort a.digits

-- The text starts with no port.
abbrev pub NoPort : String → Type 0
NoPort String.[] = Unit {0}
NoPort (String.◌∷◌ c s) = ((code c == b':') ≡ false) ⊎ Stops is_digit s

-- What may follow an authority, so that it cannot be longer.
abbrev pub Ends : Option String → String → Type 0
Ends none rest = Stops in_host rest × NoPort rest
Ends (some d) rest = Stops is_digit rest

no_digits : (s : String) → Stops is_digit s → (span is_digit s).0 ≡ ""
no_digits s h =
    ap (λ p. p.0) (ap (span is_digit) (sym (append.nil s)) ∙ span-append is_digit "" s tt h)

no_port :
    (b : Bool) (digits text : String)
    → digits ≡ ""
    → (if b && not (digits === "") then text else "") ≡ ""
no_port false digits text e = refl
no_port true digits text e = rw e refl

port-append :
    (d : Option String) (rest : String)
    → IsPort d
    → Ends d rest
    → port (port_text d <> rest) ≡ port_text d
unfolding port
port-append none String.[] p h = rw (append.nil "") refl
port-append none (String.◌∷◌ c s) p h = rw (append.nil (String.◌∷◌ c s)) (elim (h.1) [
  | inl no_colon ↦ rw no_colon refl
  | inr digitless ↦ no_port (code c == b':') (span is_digit s).0 _ (no_digits s digitless)
])
port-append (some d) rest p h =
    let digits = span-append is_digit d rest p.0 h in rw (colon d rest, digits, p.1) refl

Stops-port : (d : Option String) (rest : String) → Ends d rest → Stops in_host (port_text d <> rest)
Stops-port none rest h = rw (append.nil rest) h.0
Stops-port (some d) rest h = rw (colon d rest) refl

-- The host and port of a URL, with a scheme or without one, are found whatever follows them.
pub authority-text :
    (k : Scheme) (a : Authority) (rest : String)
    → IsAuthority a
    → Ends a.digits rest
    → authority (scheme_text k <> ("//" <> (authority_text a <> rest))) ≡ some (authority_text a)
unfolding authority
authority-text k a rest v h =
    let after = after_scheme-slashes k (authority_text a <> rest) in
    let slashes = strip-append "//" (authority_text a <> rest) in
    let found =
      span-append in_host a.host (port_text a.digits <> rest) v.letters
        (Stops-port a.digits rest h) in
    rw
      (
        authority,
        after,
        slashes,
        append_assoc a.host (port_text a.digits) rest,
        found,
        v.named,
        port-append a.digits rest v.numbered h,
      )
      refl
