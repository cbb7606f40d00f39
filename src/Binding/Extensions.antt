-- ===== src/Binding/Extensions.antt =====
-- media/js/jquery/jquery.cometd-ack.js, -reload.js, -timestamp.js and -timesync.js: the registration of the
-- extensions of a page that has jQuery. An extension is known by its number.
use vurs.Prelude.{
  ℕ, String, Bool, true, false, Option, none, some, List, [], ◌∷◌, ◌++◌, ◌≡◌, refl, ok, arith,
  eq_refl,
}
use vurs.Client.State.{Client, Extension, Host, M}
use vurs.Client.Extensions.{has_extension}
use vurs.Client.Api.{register_extension, push_extension}
use vurs.Reload.{Browser}

-- `if ($.cookie) { … }`: the plug-in's one function sets a cookie and reads one.
unfoldable pub remap_cookies :
    {J : Type 0}
    → Option ((String → J → String) × (String → String → ℕ → J → J))
    → Browser J
    → Browser J
remap_cookies none browser = browser
remap_cookies (some (get_cookie, set_cookie)) browser = record browser {
  cookie = get_cookie;
  set_cookie = set_cookie;
}

module _ {W : Type 0} (host : Host W) where
  unfoldable pub register_ack : ℕ → M W Bool
  unfolding register_extension
  register_ack e = register_extension host "ack" e

  unfoldable pub register_reload : ℕ → M W Bool
  unfolding register_extension
  register_reload e = register_extension host "reload" e

  unfoldable pub register_timestamp : ℕ → M W Bool
  unfolding register_extension
  register_timestamp e = register_extension host "timestamp" e

  unfoldable pub register_timesync : ℕ → M W Bool
  unfolding register_extension
  register_timesync e = register_extension host "timesync" e

  has_extension-last :
      (n : String) (e : ℕ) (es : List Extension)
      → has_extension n (es ++ record { name = n; extension = e } ∷ []) ≡ true
  unfolding has_extension
  has_extension-last n e [] = rw (eq_refl n) refl
  has_extension-last n e (x ∷ xs) = ground (arith, has_extension-last n e xs)

  -- A file that is loaded again registers nothing: the extension's name is taken.
  register_extension-again :
      (n : String) (e e' : ℕ) (s : Client W)
      → register_extension host n e' (push_extension n e s) ≡ (push_extension n e s, ok false)
  unfolding register_extension push_extension
  register_extension-again n e e' s = rw (has_extension-last n e s.extensions) refl
