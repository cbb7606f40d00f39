-- ===== src/Client/Keeps.antt =====
-- Functions of a client that keep an invariant, whatever they return or throw: the rules for the monad
-- of media/js/cometd.js's functions, and the loops that call the page's code.
pub mod Sending
pub mod Steps
pub mod Connection
pub mod Messages
pub mod Events
pub mod Runs
use vurs.Prelude.{
  ℕ, zero, suc, String, Bool, true, false, Option, none, some, List, [], ◌∷◌, ◌≡◌, refl, ◌⊎◌, inl,
  inr, arith, if◌then◌else◌, ltb, length, get_elem?, Outcome, ok, thrown, unfinished, Bool-cases,
  Option-cases, Exception,
}
use vurs.Prelude.Dict
use vurs.Value.{Value, Object}
use vurs.Channel.{notified}
use vurs.Listeners.{Argument, Subscription, slots_at}
use vurs.Client.State.{
  Client, Extension, Host, Callback, M, return, throw, modify, with_state, run_out, lift_world, try,
  caught, resume, ◌>>=◌, ◌>>◌,
}
use vurs.Client.Extensions.{
  apply_extension, apply_from, callback_of, in_turn, in_order, apply_incoming_extensions,
  apply_outgoing_extensions,
}
use vurs.Client.Connection.{
  call_slot, notify_from, notify_array, notify, notify_each, notify_listeners, lift_outcome,
}

pub record Keeps {W A : Type 0} (I : Client W → Type 0) (m : M W A) : Type 0 where
  pub run : (s : Client W) → I s → I (m s).0

caught-Keeps :
    {W : Type 0} (I : Client W → Type 0) (r : Client W × Outcome (Unit {0}))
    → I r.0
    → I (caught r).0
caught-Keeps I (s, ok a) i = i
caught-Keeps I (s, thrown e) i = i
caught-Keeps I (s, unfinished) i = i

module _ {W : Type 0} {I : Client W → Type 0} where
  resume-Keeps :
      {A B : Type 0} (f : A → M W B) (r : Client W × Outcome A)
      → ((a : A) → Keeps I (f a))
      → I r.0
      → I (resume f r).0
  resume-Keeps f (s, ok a) h i = (h a).run s i
  resume-Keeps f (s, thrown e) h i = i
  resume-Keeps f (s, unfinished) h i = i

  pub bind-Keeps :
      {A B : Type 0} {m : M W A} {f : A → M W B}
      → Keeps I m
      → ((a : A) → Keeps I (f a))
      → Keeps I (m >>= f)
  bind-Keeps {m} {f} h k = record { run = λ s i. resume-Keeps f (m s) k (h.run s i) }

  pub then-Keeps :
      {B : Type 0} {m : M W (Unit {0})} {n : M W B} → Keeps I m → Keeps I n → Keeps I (m >> n)
  then-Keeps {m} {n} h k = record { run = λ s i. resume-Keeps (λ _. n) (m s) (λ _. k) (h.run s i) }

  pub with_state-Keeps :
      {A : Type 0} {f : Client W → M W A}
      → ((s : Client W) → Keeps I (f s))
      → Keeps I (with_state f)
  with_state-Keeps h = record { run = λ s i. (h s).run s i }

  pub modify-Keeps :
      {f : Client W → Client W} → ((s : Client W) → I s → I (f s)) → Keeps I (modify f)
  modify-Keeps h = record { run = h }

  pub return-Keeps : {A : Type 0} (a : A) → Keeps I (return {W = W} a)
  return-Keeps a = record { run = λ s i. i }

  pub throw-Keeps : {A : Type 0} (e : Exception) → Keeps I (throw {W = W} {A = A} e)
  throw-Keeps e = record { run = λ s i. i }

  pub run_out-Keeps : {A : Type 0} → Keeps I (run_out {W = W} {A = A})
  run_out-Keeps = record { run = λ s i. i }

  pub outcome-Keeps : {A : Type 0} (r : Outcome A) → Keeps I (lift_outcome {W = W} r)
  outcome-Keeps r = record { run = λ s i. i }

  pub try-Keeps : {m : M W (Unit {0})} → Keeps I m → Keeps I (try m)
  try-Keeps {m} h = record { run = λ s i. caught-Keeps I (m s) (h.run s i) }

  pub if-Keeps :
      {A : Type 0} (b : Bool) {m n : M W A} → Keeps I m → Keeps I n → Keeps I (if b then m else n)
  if-Keeps true h k = h
  if-Keeps false h k = k

module _ {W : Type 0} (I : Client W → Type 0) where
  abbrev pub CallbackKeeps : Option (Callback W) → Type 0
  CallbackKeeps none = Unit {0}
  CallbackKeeps (some f) = (m : Object) (s : Client W) → I s → I (f m s).0

  apply_extension-Keeps :
      (f : Option (Callback W)) (m : Object) → CallbackKeeps f → Keeps I (apply_extension f m)
  unfolding apply_extension
  apply_extension-Keeps none m h = record { run = λ s i. i }
  apply_extension-Keeps (some f) m h = record { run = h m }

  module _ (f : ℕ → Option (Callback W)) (h : (e : ℕ) → CallbackKeeps (f e)) where
    callback_of-Keeps : (e : Option Extension) → CallbackKeeps (callback_of f e)
    callback_of-Keeps none = tt
    callback_of-Keeps (some e) = h e.extension

    pub apply_from-Keeps :
        (pick : ℕ → List Extension → Option Extension) (rounds i : ℕ) (m : Option Object)
        → Keeps I (apply_from pick f rounds i m)
    unfolding apply_from
    apply_from-Keeps pick zero i m = run_out-Keeps
    apply_from-Keeps pick (suc rounds) i none = return-Keeps none
    apply_from-Keeps pick (suc rounds) i (some m) = with_state-Keeps λ s.
        if-Keeps (ltb i (length s.extensions))
          (bind-Keeps
            (apply_extension-Keeps (callback_of f (pick i s.extensions)) m
              (callback_of-Keeps (pick i s.extensions)))
            (apply_from-Keeps pick rounds (suc i)))
          (return-Keeps (some m))

  module _ (host : Host W)
      (listener : (scope : Argument) (f : ℕ) (m : Object) → Keeps I (host.listener scope f m)) where
    call_slot-Keeps : (l : Option (Option Subscription)) (m : Object) → Keeps I (call_slot host l m)
    unfolding call_slot
    call_slot-Keeps none m = return-Keeps tt
    call_slot-Keeps (some none) m = return-Keeps tt
    call_slot-Keeps (some (some l)) m = try-Keeps (listener l.scope l.callback m)

    notify_from-Keeps : (rounds a i : ℕ) (m : Object) → Keeps I (notify_from host rounds a i m)
    unfolding notify_from
    notify_from-Keeps zero a i m = run_out-Keeps
    notify_from-Keeps (suc rounds) a i m = with_state-Keeps λ s.
        if-Keeps (ltb i (length (slots_at s.listeners.arrays a)))
          (then-Keeps (call_slot-Keeps (get_elem? (slots_at s.listeners.arrays a) i) m)
            (notify_from-Keeps rounds a (suc i) m))
          (return-Keeps tt)

    notify_array-Keeps : (a : Option ℕ) (m : Object) → Keeps I (notify_array host a m)
    unfolding notify_array
    notify_array-Keeps none m = return-Keeps tt
    notify_array-Keeps (some a) m = notify_from-Keeps host.rounds a 0 m

    notify_each-Keeps : (cs : List String) (m : Object) → Keeps I (notify_each host cs m)
    unfolding notify_each notify
    notify_each-Keeps [] m = return-Keeps tt
    notify_each-Keeps (c ∷ cs) m =
        then-Keeps (with_state-Keeps λ s. notify_array-Keeps (Dict.lookup c s.listeners.channels) m)
          (notify_each-Keeps cs m)

    -- What every listener keeps, a notification keeps.
    pub notify_listeners-Keeps : (c : String) (m : Object) → Keeps I (notify_listeners host c m)
    unfolding notify_listeners
    notify_listeners-Keeps c m = notify_each-Keeps (notified c) m

-- The page's code keeps the invariant, as code that goes through a client's public methods does.
pub record IsPolite {W : Type 0} (I : Client W → Type 0) (host : Host W) : Type 0 where
  pub listener : (scope : Argument) (f : ℕ) (m : Object) → Keeps I (host.listener scope f m)
  pub call : (scope : Argument) (f : ℕ) → Keeps I (host.call scope f)
  pub incoming : (e : ℕ) → CallbackKeeps I (host.incoming e)
  pub outgoing : (e : ℕ) → CallbackKeeps I (host.outgoing e)
  pub extension_registered : (e : ℕ) (name : String) → Keeps I (host.extension_registered e name)
  pub extension_unregistered : (e : ℕ) → Keeps I (host.extension_unregistered e)
