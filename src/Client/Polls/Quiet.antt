-- ===== src/Client/Polls/Quiet.antt =====
-- media/js/cometd.js: a notification of listeners that leave the client alone.
use vurs.Prelude.{
  ℕ, zero, suc, ◌+◌, ◌<◌, String, Bool-cases, Option, none, some, List, [], ◌∷◌, ◌≡◌, ◌≢◌, refl,
  ◌∙◌, ap, inl, inr, Outcome, ok, thrown, unfinished, ltb, length, get_elem?, arith,
}
use vurs.Prelude.Dict
use vurs.Value.{Object}
use vurs.Listeners.{Argument, Subscription, slots_at}
use vurs.Channel.{notified}
use vurs.Client.State.{Client, Host, M, caught, resume}
use vurs.Client.Notified.{IsShort}
use vurs.Client.Connection.{
  call_slot, notify_from, notify_array, notify, notify_each, notify_listeners,
}

-- The run returns, and has changed nothing but the world, of which `log` is as it was.
abbrev pub Quietly : {W L : Type 0} → (W → L) → Client W → Client W × Outcome (Unit {0}) → Type 0
Quietly {W = W} log s r = (w : W) × (r ≡ (record s { world = w }, ok tt)) × (log w ≡ log s.world)

-- The page's listeners return or throw, and leave the client and the log alone.
pub record IsAloof {W L : Type 0} (host : Host W) (log : W → L) : Type 0 where
  pub listened : Argument → ℕ → Object → Client W → W
  pub alone :
      (scope : Argument) (f : ℕ) (m : Object) (s : Client W)
      → (host.listener scope f m s).0 ≡ record s { world = listened scope f m s }
  pub same_log :
      (scope : Argument) (f : ℕ) (m : Object) (s : Client W)
      → log (listened scope f m s) ≡ log s.world
  pub returns :
      (scope : Argument) (f : ℕ) (m : Object) (s : Client W)
      → (host.listener scope f m s).1 ≢ unfinished

module _ {W L : Type 0} (log : W → L) where
  caught-Quietly :
      (s : Client W) (r : Client W × Outcome (Unit {0})) (w : W)
      → r.0 ≡ record s { world = w }
      → log w ≡ log s.world
      → r.1 ≢ unfinished
      → Quietly log s (caught r)
  caught-Quietly s (t, ok a) w same kept h = (w, rw same refl, kept)
  caught-Quietly s (t, thrown e) w same kept h = (w, rw same refl, kept)
  caught-Quietly s (t, unfinished) w same kept h = absurd (h refl)

  pub resume-Quietly :
      (s : Client W) (r : Client W × Outcome (Unit {0})) (k : M W (Unit {0}))
      → Quietly log s r
      → ((w : W) → Quietly log (record s { world = w }) (k (record s { world = w })))
      → Quietly log s (resume (λ _. k) r)
  resume-Quietly s r k (w, same, kept) h =
      let (v, same', kept') = h w in (v, ap (resume (λ _. k)) same ∙ same', kept' ∙ kept)

module _ {W L : Type 0} (host : Host W) (log : W → L) (aloof : IsAloof host log) where
  call_slot-Quietly :
      (o : Option (Option Subscription)) (m : Object) (s : Client W)
      → Quietly log s (call_slot host o m s)
  unfolding call_slot
  call_slot-Quietly (some (some l)) m s =
      caught-Quietly log s (host.listener l.scope l.callback m s)
        (aloof.listened l.scope l.callback m s) (aloof.alone l.scope l.callback m s)
        (aloof.same_log l.scope l.callback m s) (aloof.returns l.scope l.callback m s)
  call_slot-Quietly (some none) m s = (s.world, refl, refl)
  call_slot-Quietly none m s = (s.world, refl, refl)

  notify_from-Quietly :
      (rounds a i : ℕ) (m : Object) (s : Client W)
      → 0 < rounds
      → length (slots_at s.listeners.arrays a) < rounds + i
      → Quietly log s (notify_from host rounds a i m s)
  unfolding notify_from
  notify_from-Quietly zero a i m s h bound = absurd (omega arith)
  notify_from-Quietly (suc rounds) a i m s h bound =
      elim (Bool-cases (ltb i (length (slots_at s.listeners.arrays a)))) [
        | inl b ↦ rw b (
            resume-Quietly log s _ (notify_from host rounds a (suc i) m)
              (call_slot-Quietly (get_elem? (slots_at s.listeners.arrays a) i) m s)
              λ w.
                notify_from-Quietly rounds a (suc i) m (record s { world = w }) (ground arith)
                  (ground arith))
        | inr b ↦ rw b (s.world, refl, refl)
      ]

  notify_array-Quietly :
      (a : Option ℕ) (m : Object) (s : Client W)
      → IsShort host s
      → Quietly log s (notify_array host a m s)
  unfolding notify_array
  notify_array-Quietly none m s h = (s.world, refl, refl)
  notify_array-Quietly (some a) m s h =
      let bound = h a in notify_from-Quietly host.rounds a 0 m s (omega arith) (omega arith)

  notify_each-Quietly :
      (cs : List String) (m : Object) (s : Client W)
      → IsShort host s
      → Quietly log s (notify_each host cs m s)
  unfolding notify_each notify
  notify_each-Quietly [] m s h = (s.world, refl, refl)
  notify_each-Quietly (c ∷ cs) m s h =
      resume-Quietly log s _ (notify_each host cs m)
        (notify_array-Quietly (Dict.lookup c s.listeners.channels) m s h)
        λ w. notify_each-Quietly cs m (record s { world = w }) h

  -- A notification of listeners that return or throw and leave the client alone, in arrays that
  -- are shorter than the bound on the rounds, changes nothing but the world.
  pub notify_listeners-Quietly :
      (channel : String) (m : Object) (s : Client W)
      → IsShort host s
      → Quietly log s (notify_listeners host channel m s)
  unfolding notify_listeners
  notify_listeners-Quietly channel m s h = notify_each-Quietly (notified channel) m s h
