-- ===== src/Client/Notified.antt =====
-- media/js/cometd.js: that a notification ends.
use vurs.Prelude.{
  ℕ, zero, suc, ◌+◌, ◌<◌, String, Bool-cases, Option, none, some, List, [], ◌∷◌, ◌≡◌, ◌≢◌, refl,
  ◌∙◌, inl, inr, Outcome, ok, thrown, unfinished, ltb, length, get_elem?, arith,
}
use vurs.Prelude.Dict
use vurs.Value.{Object}
use vurs.Listeners.{Argument, Subscription, slots_at}
use vurs.Channel.{notified}
use vurs.Client.State.{Client, Host, M, caught, resume}
use vurs.Client.Connection.{
  call_slot, notify_from, notify_array, notify, notify_each, notify_listeners,
}

-- The run returns, and leaves the listeners as they were.
abbrev pub Ends : {W : Type 0} → Client W → Client W × Outcome (Unit {0}) → Type 0
Ends s r = (r.1 ≡ ok tt) × (r.0.listeners ≡ s.listeners)

-- The page's listeners return or throw, and neither add nor remove listeners.
pub record IsQuiet {W : Type 0} (host : Host W) : Type 0 where
  pub same :
      (scope : Argument) (f : ℕ) (m : Object) (s : Client W)
      → (host.listener scope f m s).0.listeners ≡ s.listeners
  pub returns :
      (scope : Argument) (f : ℕ) (m : Object) (s : Client W)
      → (host.listener scope f m s).1 ≢ unfinished

-- Each array of listeners is shorter than the bound on the rounds.
abbrev pub IsShort : {W : Type 0} → Host W → Client W → Type 0
IsShort host s = (a : ℕ) → length (slots_at s.listeners.arrays a) < host.rounds

module _ {W : Type 0} where
  caught-Ends :
      (s : Client W) (r : Client W × Outcome (Unit {0}))
      → r.0.listeners ≡ s.listeners
      → r.1 ≢ unfinished
      → Ends s (caught r)
  caught-Ends s (t, ok a) same h = (refl, same)
  caught-Ends s (t, thrown e) same h = (refl, same)
  caught-Ends s (t, unfinished) same h = absurd (h refl)

  resume-Ends :
      (s : Client W) (r : Client W × Outcome (Unit {0})) (k : M W (Unit {0}))
      → Ends s r
      → ((t : Client W) → t.listeners ≡ s.listeners → Ends t (k t))
      → Ends s (resume (λ _. k) r)
  resume-Ends s (t, o) k (e, same) h = rw e (let (f, again) = h t same in (f, again ∙ same))

module _ {W : Type 0} (host : Host W) (quiet : IsQuiet host) where
  call_slot-Ends :
      (o : Option (Option Subscription)) (m : Object) (s : Client W) → Ends s (call_slot host o m s)
  unfolding call_slot
  call_slot-Ends (some (some l)) m s =
      caught-Ends s (host.listener l.scope l.callback m s) (quiet.same l.scope l.callback m s)
        (quiet.returns l.scope l.callback m s)
  call_slot-Ends (some none) m s = (refl, refl)
  call_slot-Ends none m s = (refl, refl)

  notify_from-Ends :
      (rounds a i : ℕ) (m : Object) (s : Client W)
      → 0 < rounds
      → length (slots_at s.listeners.arrays a) < rounds + i
      → Ends s (notify_from host rounds a i m s)
  unfolding notify_from
  notify_from-Ends zero a i m s h bound = absurd (omega arith)
  notify_from-Ends (suc rounds) a i m s h bound =
      elim (Bool-cases (ltb i (length (slots_at s.listeners.arrays a)))) [
        | inl b ↦ rw b (
            resume-Ends s _ (notify_from host rounds a (suc i) m)
              (call_slot-Ends (get_elem? (slots_at s.listeners.arrays a) i) m s)
              λ t same.
                notify_from-Ends rounds a (suc i) m t (ground arith) (rw same (ground arith)))
        | inr b ↦ rw b (refl, refl)
      ]

  notify_array-Ends :
      (a : Option ℕ) (m : Object) (s : Client W) → IsShort host s → Ends s (notify_array host a m s)
  unfolding notify_array
  notify_array-Ends none m s h = (refl, refl)
  notify_array-Ends (some a) m s h =
      let bound = h a in notify_from-Ends host.rounds a 0 m s (omega arith) (omega arith)

  notify_each-Ends :
      (cs : List String) (m : Object) (s : Client W)
      → IsShort host s
      → Ends s (notify_each host cs m s)
  unfolding notify_each notify
  notify_each-Ends [] m s h = (refl, refl)
  notify_each-Ends (c ∷ cs) m s h =
      resume-Ends s _ (notify_each host cs m)
        (notify_array-Ends (Dict.lookup c s.listeners.channels) m s h)
        λ t same. notify_each-Ends cs m t (rw same h)

  -- A notification ends within the bound on the rounds, and returns without an exception, where every
  -- array of listeners is shorter than the bound and the page's listeners return or throw
  -- and neither add nor remove listeners: an exception of one of them is caught.
  pub notify_listeners-Ends :
      (channel : String) (m : Object) (s : Client W)
      → IsShort host s
      → Ends s (notify_listeners host channel m s)
  unfolding notify_listeners
  notify_listeners-Ends channel m s h = notify_each-Ends (notified channel) m s h
