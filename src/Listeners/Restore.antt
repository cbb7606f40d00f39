-- ===== src/Listeners/Restore.antt =====
-- media/js/cometd.js: `_addListener` and then `_removeListener` of its handle, and what
-- `_hasSubscriptions` depends on.
use vurs.Prelude.{
  ℕ, suc, String, Bool, true, false, Bool-cases, none, some, [], ◌∷◌, ◌≡◌, refl, sym, ap, ◌∙◌, inl,
  inr, arith, eq_iff,
}
use vurs.Prelude.Dict
use vurs.Listeners.{
  Listeners, Slots, Handle, Delegate, slots_at, any_slot, has_subscriptions, add_listener,
  remove_listener,
}
use vurs.Listeners.Slots.{at, slot, IsWellFormed, same_handle}
use vurs.Listeners.Laws.{add_listener-Adds, slot-remove_listener}

pub any_slot-none : (xs : Slots) → ((i : ℕ) → at xs i ≡ none) → any_slot xs ≡ false
unfolding any_slot
any_slot-none [] h = refl
any_slot-none (none ∷ xs) h = any_slot-none xs (λ i. h (suc i))
any_slot-none (some s ∷ xs) h = absurd (let e = h 0 in cc)

pub any_slot-same : (xs ys : Slots) → ((i : ℕ) → at xs i ≡ at ys i) → any_slot xs ≡ any_slot ys
unfolding any_slot
any_slot-same [] ys h = sym (any_slot-none ys (λ i. sym (h i)))
any_slot-same (x ∷ xs) [] h = any_slot-none (x ∷ xs) h
any_slot-same (x ∷ xs) (y ∷ ys) h = ground (arith, h 0, any_slot-same xs ys (λ i. h (suc i)))

-- The array of a channel, empty for a channel without one.
abbrev pub slots_of : String → Listeners → Slots
slots_of c l = elim (Dict.lookup c l.channels) [ none ↦ [] | some a ↦ slots_at l.arrays a ]

pub has_subscriptions-slots_of :
    (c : String) (l : Listeners) → has_subscriptions c l ≡ any_slot (slots_of c l)
unfolding has_subscriptions any_slot
has_subscriptions-slots_of c l = ground arith

pub at-slots_of :
    (c : String) (l : Listeners) (i : ℕ)
    → at (slots_of c l) i ≡ slot l (record { channel = c; index = i })
at-slots_of c l i = ground arith

-- `_hasSubscriptions` depends on the slots alone.
pub has_subscriptions-same :
    (c : String) (l l' : Listeners)
    → ((h : Handle) → slot l h ≡ slot l' h)
    → has_subscriptions c l ≡ has_subscriptions c l'
has_subscriptions-same c l l' same =
    let alike = any_slot-same (slots_of c l) (slots_of c l') λ i.
      at-slots_of c l i ∙ same (record { channel = c; index = i }) ∙ sym (at-slots_of c l' i) in
    has_subscriptions-slots_of c l ∙ alike ∙ sym (has_subscriptions-slots_of c l')

abbrev pub handle : String → ℕ → Handle
handle c i = record { channel = c; index = i }

same_handle-eq : (k h : Handle) → same_handle k h ≡ true → k ≡ h
same_handle-eq k h e =
    let channels : k.channel ≡ h.channel = ground (arith, eq_iff k.channel h.channel) in
    let indices : k.index ≡ h.index = ground arith in
    ap (λ c. handle c k.index) channels ∙ ap (handle h.channel) indices

-- On well-formed listeners, to remove the handle that a registration returned undoes it: every handle
-- stands for what it stood for before, and `_hasSubscriptions` of every channel is as before.
pub remove_listener-add_listener :
    (c : String) (d : Delegate) (is_subscription : Bool) (l : Listeners)
    → IsWellFormed l
    → let r = add_listener c d is_subscription l in
      ((h : Handle) → slot (remove_listener r.1 r.0) h ≡ slot l h)
      × ((j : String) → has_subscriptions j (remove_listener r.1 r.0) ≡ has_subscriptions j l)
remove_listener-add_listener c d is_subscription l w =
    (back, λ j. has_subscriptions-same j _ l back)
  where
    back :
        (h : Handle)
        → slot
            (remove_listener
              (add_listener c d is_subscription l).1
              (add_listener c d is_subscription l).0)
            h
          ≡ slot l h
    back h =
        let a = add_listener-Adds c d is_subscription l w in
        let k = (add_listener c d is_subscription l).1 in
        elim (Bool-cases (same_handle k h)) [
          | inl same ↦
              rw (slot-remove_listener k h _ a.3, same)
                (sym (a.1) ∙ ap (slot l) (same_handle-eq k h same))
          | inr other ↦ rw (slot-remove_listener k h _ a.3, other, a.2 h, other) refl
        ]
