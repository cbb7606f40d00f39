-- ===== src/Reload/Withheld.antt =====
-- media/js/cometd/ReloadExtension.js and media/js/cometd.js: the handshake of a client whose one extension
-- is the reload extension.
use vurs.Prelude.{
  ℕ, zero, suc, ◌<◌, String, true, Option, none, some, List, [], ◌∷◌, ◌≡◌, sym, ap, ◌∙◌, ok, arith,
  ltb, length, if◌then◌else◌,
}
use vurs.Value.{Object, null, str, get, truthy}
use vurs.Client.State.{Client, Extension, Host, Callback, M, return, resume, ◌>>=◌}
use vurs.Client.Extensions.{
  apply_from, apply_extension, in_order, callback_of, result_message, apply_outgoing_extensions,
}
use vurs.Reload.{
  Browser, Reload, restore, cookie_name, new, begin_state, outgoing, run_replay, put_off,
}
use vurs.Reload.Hooked.{Place, keep, on_outgoing, as_value}
use vurs.Reload.Restored.{IsFaithful, saved, outgoing-found}

-- What the page keeps of the extension, and what its transports were given to send.
abbrev pub both : {J W L : Type 0} → Place J W L → W → Reload J × L
both place w = (place.view w, place.log w)

module _ {J W L : Type 0} (place : Place J W L) (browser : Browser J) (host : Host W) where
  drop_alone :
      (rounds e : ℕ) (name : String) (m : Object) (s u : Client W) (f : Callback W)
      → 1 < rounds
      → s.extensions ≡ record { name = name; extension = e } ∷ []
      → host.outgoing e ≡ some f
      → f m s ≡ (u, m, ok null)
      → apply_from in_order host.outgoing rounds 0 (some m) s ≡ (u, ok none)
  unfolding apply_from apply_extension result_message
  drop_alone zero e name m s u f h alone hooked held = absurd (omega arith)
  drop_alone (suc zero) e name m s u f h alone hooked held = absurd (omega arith)
  drop_alone (suc (suc n)) e name m s u f h alone hooked held =
      let rest = apply_from in_order host.outgoing (suc n) 1 in
      let called : List Extension → M W (Option Object) =
        λ es. apply_extension (callback_of host.outgoing (in_order 0 es)) m >>= rest in
      let stopped : M W (Option Object) = return (some m) in
      ap (λ es. (if ltb 0 (length es) then called es else stopped) s) alone
      ∙ ap (λ o. resume rest (apply_extension o m s)) hooked
      ∙ ap (λ p. resume rest (p.0, result_message p.1 p.2)) held

-- The extension's variables once it holds the handshake back, and once the old answer is on its way.
abbrev pub holding : {J : Type 0} → Browser J → String → Reload J → Reload J
holding browser url r =
    put_off (restore r.state) (record (begin_state url (new none (saved browser r))) {
      jar = browser.set_cookie cookie_name "" 0 (saved browser r);
    })

abbrev pub restored : {J : Type 0} → Browser J → String → Reload J → Reload J
restored browser url r =
    (run_replay (restore r.state) (record (holding browser url r) { pending = [] })).0

module _ {J W L : Type 0} (place : Place J W L) (browser : Browser J) (host : Host W) (r : Reload J)
    (faithful : IsFaithful browser r.state) where
  pub held_back :
      (name : String) (e : ℕ) (n : Object) (s u : Client W)
      → 1 < host.rounds
      → host.outgoing e ≡ some (on_outgoing place browser)
      → s.extensions ≡ record { name = name; extension = e } ∷ []
      → place.view s.world ≡ new none (saved browser r)
      → 0 < r.cookie_max_age
      → truthy (get "handshakeResponse" r.state) ≡ true
      → get "url" r.state ≡ str s.url
      → get "channel" n ≡ str "/meta/handshake"
      → u.extensions ≡ s.extensions
      → u.settings ≡ s.settings
      → both place u.world ≡ both place s.world
      → apply_outgoing_extensions host n u
        ≡ (record u { world = place.store (holding browser s.url r) u.world }, ok none)
  unfolding apply_outgoing_extensions on_outgoing
  held_back name e n s u more hooked alone loaded age answered same channel extensions settings
        kept =
      let at_url = same ∙ ap (λ x. str x.url) (sym settings) in
      let out =
        ap (outgoing browser u.url n) (ap (λ p. p.0) kept ∙ loaded)
        ∙ outgoing-found browser u.url n r faithful channel age answered at_url in
      drop_alone place browser host host.rounds e name n u
        (record u { world = place.store (holding browser s.url r) u.world })
        (on_outgoing place browser) more (extensions ∙ alone) hooked
        (ap (λ p. (keep place p.0 u, n, as_value p.1)) out
          ∙ ap
              (λ x.
                (record u { world = place.store (holding browser x.url r) u.world }, n, ok null))
              settings)
