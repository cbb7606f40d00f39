-- ===== src/Client/Polls/Line.antt =====
-- media/js/cometd.js: what a client relies on in the transport of its connects.
use vurs.Prelude.{ℕ, suc, Bool, true, List, [], ◌∷◌, ◌++◌, ◌≡◌, ok}
use vurs.Value.{Value, Object}
use vurs.Client.State.{Envelope, Settings, Host}
use vurs.Client.Polls.Quiet.{IsAloof}

-- A long poll is sent where none is in flight, and its end frees the line. `view` is what the page's
-- listeners leave alone; `next` is the number of the next request, and `log` lists the long polls.
pub record Line {W V : Type 0} (host : Host W) (t : ℕ) (type : Value) (view : W → V) : Type 1 where
  pub Free : V → Type 0
  pub Flying : ℕ → V → Type 0
  pub next : V → ℕ
  pub log : V → List Envelope
  pub aloof : IsAloof host view
  pub typed : (w : W) → Free (view w) → host.get_type w t ≡ type
  pub sends :
      (e : Envelope) (settings : Settings) (advice : Object) (w : W)
      → Free (view w)
      → (host.send t e true settings advice w).1 ≡ ok tt
  pub sent :
      (e : Envelope) (settings : Settings) (advice : Object) (w : W)
      → Free (view w)
      → let v = view (host.send t e true settings advice w).0 in
        Flying (next (view w)) v × (next v ≡ suc (next (view w))) × (log v ≡ log (view w) ++ e ∷ [])
  pub completes :
      (r : ℕ) (success : Bool) (settings : Settings) (advice : Object) (w : W)
      → Flying r (view w)
      → (host.complete t r success true settings advice w).1 ≡ ok tt
  pub completed :
      (r : ℕ) (success : Bool) (settings : Settings) (advice : Object) (w : W)
      → Flying r (view w)
      → let v = view (host.complete t r success true settings advice w).0 in
        Free v × (next v ≡ next (view w)) × (log v ≡ log (view w))
