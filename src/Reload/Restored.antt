-- ===== src/Reload/Restored.antt =====
-- media/js/cometd/ReloadExtension.js: a state that is saved and found again.
use vurs.Prelude.{ℕ, ◌<◌, ◌≡◌, refl, ◌∙◌, String, true, false, none, [], ◌∷◌, ◌===◌, ok, eq_refl}
use vurs.Value.{Value, Object, null, obj, str, get, truthy}
use vurs.Value.Objects.{get-put, get-put_self}
use vurs.Reload.{
  Browser, restore, Reload, cookie_name, new, begin_state, restore_from, reload, outgoing,
  run_replay, is_null, put_off,
}

-- Cookies and JSON behave as documented: a cookie that has not expired is read as it was set, one set
-- with no age is gone, and a state that is written as JSON is read back and is no empty text.
pub record IsFaithful {J : Type 0} (browser : Browser J) (state : Object) : Type 0 where
  pub kept :
      (name value : String) (age : ℕ) (jar : J)
      → 0 < age
      → browser.cookie name (browser.set_cookie name value age jar) ≡ value
  pub gone :
      (name value : String) (jar : J)
      → browser.cookie name (browser.set_cookie name value 0 jar) ≡ ""
  pub read_back : browser.from_json (browser.to_json state) ≡ ok (obj state)
  pub written : (browser.to_json state === "") ≡ false

not_null : (v : Value) → truthy v ≡ true → is_null v ≡ false
not_null null h = cc
not_null _ h = refl

-- The browser's cookies with the saved state among them.
abbrev pub saved : {J : Type 0} → Browser J → Reload J → J
saved browser r = browser.set_cookie cookie_name (browser.to_json r.state) r.cookie_max_age r.jar

module _ {J : Type 0} (browser : Browser J) (url : String) (m : Object) (r : Reload J)
    (faithful : IsFaithful browser r.state) where
  pub jar-reload :
      truthy (get "handshakeResponse" r.state) ≡ true → (reload browser r).jar ≡ saved browser r
  unfolding reload
  jar-reload answered = rw (not_null (get "handshakeResponse" r.state) answered) refl

  pub outgoing-found :
      get "channel" m ≡ str "/meta/handshake"
      → 0 < r.cookie_max_age
      → truthy (get "handshakeResponse" r.state) ≡ true
      → get "url" r.state ≡ str url
      → outgoing browser url m (new none (saved browser r)) ≡ (
        put_off (restore r.state) (record (begin_state url (new none (saved browser r))) {
          jar = browser.set_cookie cookie_name "" 0 (saved browser r);
        }),
        ok none,
      )
  unfolding outgoing restore_from begin_state new
  outgoing-found channel age answered same =
      rw
        (
          channel,
          faithful.kept cookie_name (browser.to_json r.state) r.cookie_max_age r.jar age,
          faithful.written,
          faithful.read_back,
          answered,
          same,
          eq_refl url,
        )
        refl

  -- A connection that is saved by `reload` and found by the extension of a new page, before the cookie
  -- expires and for the same server, is restored: the new page's handshake is not sent, the
  -- cookie is gone, and the one thing put off hands the old answer to the handshake to the
  -- client and makes its subscriptions the new page's.
  pub outgoing-reload :
      get "channel" m ≡ str "/meta/handshake"
      → 0 < r.cookie_max_age
      → truthy (get "handshakeResponse" r.state) ≡ true
      → get "url" r.state ≡ str url
      → let (u, result) = outgoing browser url m (new none (reload browser r).jar) in
        let (v, message) = run_replay (restore r.state) u in
        (result ≡ ok none)
        × (u.pending ≡ restore r.state ∷ [])
        × (browser.cookie cookie_name u.jar ≡ "")
        × (message ≡ get "handshakeResponse" r.state)
        × (get "handshakeResponse" v.state ≡ get "handshakeResponse" r.state)
        × (get "subscriptions" v.state ≡ get "subscriptions" r.state)
  unfolding begin_state new run_replay
  outgoing-reload channel age answered same =
      rw (jar-reload answered, outgoing-found channel age answered same)
        (
          refl,
          refl,
          faithful.gone cookie_name "" (saved browser r),
          refl,
          get-put "subscriptions" "handshakeResponse" (get "subscriptions" r.state) _
              ∙ get-put_self "handshakeResponse" (get "handshakeResponse" r.state) _,
          get-put_self "subscriptions" (get "subscriptions" r.state) _,
        )
