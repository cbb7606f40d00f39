-- ===== src/Listeners/Counted.antt =====
-- media/js/cometd.js: what `_addListener` and `_removeListener` do to `_hasSubscriptions`.
use vurs.Prelude.{
  ℕ, zero, suc, String, Bool, true, false, Bool-cases, none, some, [], ◌∷◌, ◌===◌, ◌≡◌, refl, sym,
  ap, ◌∙◌, inl, inr, arith, eq_iff, eq_refl, if◌then◌else◌,
}
use vurs.Listeners.{
  Listeners, Slots, Subscription, Handle, Delegate, any_slot, has_subscriptions, add_listener,
  remove_listener,
}
use vurs.Listeners.Slots.{at, slot, IsWellFormed, same_handle}
use vurs.Listeners.Laws.{added, add_listener-Adds, slot-remove_listener}
use vurs.Listeners.Restore.{
  any_slot-same, slots_of, has_subscriptions-slots_of, at-slots_of, handle,
}

any_slot-some : (xs : Slots) (i : ℕ) (s : Subscription) → at xs i ≡ some s → any_slot xs ≡ true
unfolding any_slot
any_slot-some [] i s h = cc
any_slot-some (none ∷ xs) zero s h = cc
any_slot-some (none ∷ xs) (suc i) s h = any_slot-some xs i s h
any_slot-some (some t ∷ xs) i s h = refl

any_slot-empty : (xs : Slots) (i : ℕ) → any_slot xs ≡ false → at xs i ≡ none
unfolding any_slot
any_slot-empty [] i h = refl
any_slot-empty (none ∷ xs) zero h = refl
any_slot-empty (none ∷ xs) (suc i) h = any_slot-empty xs i h
any_slot-empty (some t ∷ xs) i h = cc

-- A channel has listeners if one of its handles stands for one.
has_subscriptions-slot :
    (l : Listeners) (h : Handle) (s : Subscription)
    → slot l h ≡ some s
    → has_subscriptions h.channel l ≡ true
has_subscriptions-slot l h s e =
    has_subscriptions-slots_of h.channel l
    ∙ any_slot-some (slots_of h.channel l) h.index s (at-slots_of h.channel l h.index ∙ e)

slot-without :
    (l : Listeners) (h : Handle) → has_subscriptions h.channel l ≡ false → slot l h ≡ none
slot-without l h e =
    sym (at-slots_of h.channel l h.index)
    ∙ any_slot-empty (slots_of h.channel l) h.index
        (sym (has_subscriptions-slots_of h.channel l) ∙ e)

-- `_hasSubscriptions` of a channel depends on the channel's slots alone.
has_subscriptions-same_channel :
    (c : String) (l l' : Listeners)
    → ((i : ℕ) → slot l (handle c i) ≡ slot l' (handle c i))
    → has_subscriptions c l ≡ has_subscriptions c l'
has_subscriptions-same_channel c l l' same =
    let alike =
      any_slot-same (slots_of c l) (slots_of c l')
        λ i. at-slots_of c l i ∙ same i ∙ sym (at-slots_of c l' i) in
    has_subscriptions-slots_of c l ∙ alike ∙ sym (has_subscriptions-slots_of c l')

other_channel : (h k : Handle) → (h.channel === k.channel) ≡ false → same_handle h k ≡ false
other_channel h k e = ground arith

pub has_subscriptions-add_listener :
    (c j : String) (d : Delegate) (is_subscription : Bool) (l : Listeners)
    → IsWellFormed l
    → has_subscriptions j (add_listener c d is_subscription l).0
      ≡ (if c === j then true else has_subscriptions j l)
has_subscriptions-add_listener c j d is_subscription l w =
    let r = add_listener c d is_subscription l in
    let (channel, free, slots, _) = add_listener-Adds c d is_subscription l w in
    elim (Bool-cases (c === j)) [
      | inl same ↦
          let j_is : r.1.channel ≡ j = channel ∙ ground (arith, eq_iff c j) in
          let self : same_handle r.1 r.1 ≡ true = ground (arith, eq_refl r.1.channel) in
          rw same (
            sym (ap (λ i. has_subscriptions i r.0) j_is)
            ∙ has_subscriptions-slot r.0 r.1 (added d is_subscription) (slots r.1 ∙ rw self refl))
      | inr other ↦ rw other (
          has_subscriptions-same_channel j r.0 l
            λ i. slots (handle j i) ∙ rw (other_channel r.1 (handle j i) (rw channel other)) refl)
    ]

pub has_subscriptions-remove_other :
    (h : Handle) (j : String) (l : Listeners)
    → IsWellFormed l
    → (h.channel === j) ≡ false
    → has_subscriptions j (remove_listener h l) ≡ has_subscriptions j l
has_subscriptions-remove_other h j l w other =
    has_subscriptions-same_channel j (remove_listener h l) l
      λ i. slot-remove_listener h (handle j i) l w ∙ rw (other_channel h (handle j i) other) refl

-- To remove a listener gives no channel its first one.
pub has_subscriptions-remove_listener :
    (h : Handle) (l : Listeners)
    → IsWellFormed l
    → has_subscriptions h.channel (remove_listener h l) ≡ true
    → has_subscriptions h.channel l ≡ true
has_subscriptions-remove_listener h l w after = elim (Bool-cases (has_subscriptions h.channel l)) [
  | inl before ↦ before
  | inr before ↦
      let gone = has_subscriptions-same_channel h.channel (remove_listener h l) l λ i.
        slot-remove_listener h (handle h.channel i) l w
        ∙ let none_here = slot-without l (handle h.channel i) before in ground arith in
      sym gone ∙ after
]
