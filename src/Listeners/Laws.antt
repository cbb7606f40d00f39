-- ===== src/Listeners/Laws.antt =====
-- media/js/cometd.js: `_addListener`, `_removeListener`, `_clearSubscriptions` and `clearListeners`
-- through the handles that they return and take.
use vurs.Prelude.{
  ℕ, zero, suc, ◌||◌, String, Bool, true, false, Option, none, some, List, [], ◌∷◌, ◌≡◌, refl, sym,
  ap, ◌∙◌, inl, inr, arith, if◌then◌else◌, ◌==◌, length, set, map, eq_iff, Option-cases, length-set,
}
use vurs.Prelude.Dict
use vurs.Listeners.{
  Listeners, Slots, Subscription, Handle, Delegate, slots_at, push_at, new_array, add_listener,
  remove_listener, drop_subscription, clear_each, clear_subscriptions, clear_listeners, empty,
}
use vurs.Listeners.Slots.{
  at, slot, IsWellFormed, same_handle, at-set, at-map, at-length, slots_at-set, slot-push_at,
  push_at-IsWellFormed, slot-new_array, new_array-IsWellFormed,
}

pub empty-IsWellFormed : IsWellFormed empty
unfolding empty Dict.lookup
empty-IsWellFormed = record { valid = λ c a e. absurd (cc); apart = λ c d a e f. absurd (cc) }

abbrev pub added : Delegate → Bool → Subscription
added d is_subscription = record {
  scope = d.scope;
  callback = d.method;
  subscription = is_subscription;
}

-- What a registration promises: the handle is of the channel and stood for nothing, it now stands for
-- the new listener, and every other handle stands for what it stood for.
abbrev pub Adds : String → Subscription → Listeners → Listeners × Handle → Type 0
Adds c s l r =
    (r.1.channel ≡ c)
    × (slot l r.1 ≡ none)
    × ((h : Handle) → slot r.0 h ≡ (if same_handle r.1 h then some s else slot l h))
    × IsWellFormed r.0

push_at-Adds :
    (c : String) (a : ℕ) (s : Subscription) (l : Listeners)
    → IsWellFormed l
    → Dict.lookup c l.channels ≡ some a
    → Adds c s l (push_at c a s l)
unfolding push_at
push_at-Adds c a s l w e = (
  refl,
  ground (arith, at-length (slots_at l.arrays a)),
  slot-push_at c a s l w e,
  push_at-IsWellFormed c a s l w e,
)

-- Whether a promise is read against a list of listeners or another with the same slots is no matter.
Adds-same_slots :
    (c : String) (s : Subscription) (l l' : Listeners) (r : Listeners × Handle)
    → ((h : Handle) → slot l' h ≡ slot l h)
    → Adds c s l' r
    → Adds c s l r
Adds-same_slots c s l l' r same a = (
  a.0,
  sym (same r.1) ∙ a.1,
  λ h. a.2 h ∙ ap (λ o. if same_handle r.1 h then some s else o) (same h),
  a.3,
)

lookup-new_array :
    (c : String) (l : Listeners) → Dict.lookup c (new_array c l).channels ≡ some (length l.arrays)
unfolding new_array
lookup-new_array c l =
    ground (arith, Dict.lookup-insert c c (length l.arrays) l.channels, eq_iff c c)

add_new-Adds :
    (c : String) (s : Subscription) (l : Listeners)
    → IsWellFormed l
    → Dict.lookup c l.channels ≡ none
    → Adds c s l (push_at c (length l.arrays) s (new_array c l))
add_new-Adds c s l w e = Adds-same_slots c s l (new_array c l) _ (slot-new_array c l w e) (
    push_at-Adds c (length l.arrays) s (new_array c l) (new_array-IsWellFormed c l w e)
      (lookup-new_array c l))

-- On well-formed listeners, `_addListener` registers a listener under a handle of the channel that no
-- listener had, and leaves every other handle as it was, on a channel with listeners and
-- on a new one. The listeners stay well formed.
pub add_listener-Adds :
    (c : String) (d : Delegate) (is_subscription : Bool) (l : Listeners)
    → IsWellFormed l
    → Adds c (added d is_subscription) l (add_listener c d is_subscription l)
unfolding add_listener
add_listener-Adds c d is_subscription l w = elim (Option-cases (Dict.lookup c l.channels)) [
  | inr (a, e) ↦ rw (e, add_listener) (push_at-Adds c a (added d is_subscription) l w e)
  | inl e ↦ rw (e, add_listener) (add_new-Adds c (added d is_subscription) l w e)
]

-- On well-formed listeners, `_removeListener` empties the slot of its handle and no other.
pub slot-remove_listener :
    (k h : Handle) (l : Listeners)
    → IsWellFormed l
    → slot (remove_listener k l) h ≡ (if same_handle k h then none else slot l h)
unfolding remove_listener
slot-remove_listener k h l w = elim (Option-cases (Dict.lookup k.channel l.channels)) [
  | inl missing ↦ rw (missing, remove_listener) (ground (arith, eq_iff k.channel h.channel))
  | inr (a, found) ↦ elim (Option-cases (Dict.lookup h.channel l.channels)) [
    | inl other ↦ ground (arith, eq_iff k.channel h.channel)
    | inr (b, here) ↦ ground (
      arith,
      eq_iff k.channel h.channel,
      w.apart k.channel h.channel a found,
      w.valid k.channel a found,
      slots_at-set l.arrays a b (set (slots_at l.arrays a) k.index none)
          (w.valid k.channel a found),
      at-set (slots_at l.arrays a) k.index h.index,
    )
  ]
]

pub remove_listener-IsWellFormed :
    (k : Handle) (l : Listeners) → IsWellFormed l → IsWellFormed (remove_listener k l)
unfolding remove_listener
remove_listener-IsWellFormed k l w = elim (Option-cases (Dict.lookup k.channel l.channels)) [
  | inl missing ↦ rw (missing, remove_listener) w
  | inr (a, found) ↦
      rw (found, remove_listener)
        (record { valid = λ d b e. rw (length-set l.arrays a _) (w.valid d b e); apart = w.apart })
]

abbrev drop_at : List Slots → ℕ → List Slots
drop_at arrays a = set arrays a (map drop_subscription (slots_at arrays a))

at-drop_at :
    (arrays : List Slots) (a b i : ℕ)
    → at (slots_at (drop_at arrays a) b) i
      ≡ (if a == b then drop_subscription (at (slots_at arrays b) i) else at (slots_at arrays b) i)
unfolding drop_subscription
at-drop_at [] a b i = ground arith
at-drop_at (x ∷ arrays) zero zero i = at-map x i
at-drop_at (x ∷ arrays) zero (suc b) i = ground arith
at-drop_at (x ∷ arrays) (suc a) zero i = ground arith
at-drop_at (x ∷ arrays) (suc a) (suc b) i = ground (arith, at-drop_at arrays a b i)

drop_subscription-drop_subscription :
    (s : Option Subscription) → drop_subscription (drop_subscription s) ≡ drop_subscription s
unfolding drop_subscription
drop_subscription-drop_subscription s = ground arith

occurs : ℕ → List (String × ℕ) → Bool
occurs b [] = false
occurs b ((c, a) ∷ rest) = a == b || occurs b rest

lookup-occurs :
    (c : String) (b : ℕ) (ds : List (String × ℕ)) → Dict.lookup c ds ≡ some b → occurs b ds ≡ true
unfolding Dict.lookup occurs
lookup-occurs c b [] e = cc
lookup-occurs c b ((d, a) ∷ rest) e = ground (arith, lookup-occurs c b rest)

at-clear_each :
    (ds : List (String × ℕ)) (arrays : List Slots) (b i : ℕ)
    → at (slots_at (clear_each ds arrays) b) i ≡ (
        if occurs b ds
        then drop_subscription (at (slots_at arrays b) i)
        else at (slots_at arrays b) i)
unfolding clear_each occurs
at-clear_each [] arrays b i = refl
at-clear_each ((c, a) ∷ rest) arrays b i = ground (
  arith,
  at-clear_each rest (drop_at arrays a) b i,
  at-drop_at arrays a b i,
  drop_subscription-drop_subscription (at (slots_at arrays b) i),
)

-- `_clearSubscriptions` empties the slot of every handle whose listener was added by `subscribe`,
-- on every channel, and leaves the listeners added by `addListener` where they are.
pub slot-clear_subscriptions :
    (l : Listeners) (h : Handle)
    → slot (clear_subscriptions l) h
      ≡ elim (slot l h) [ none ↦ none | some s ↦ if s.subscription then none else some s ]
unfolding clear_subscriptions drop_subscription
slot-clear_subscriptions l h = elim (Option-cases (Dict.lookup h.channel l.channels)) [
  | inl missing ↦ ground arith
  | inr (a, found) ↦ ground (
    arith,
    at-clear_each l.channels l.arrays a h.index,
    lookup-occurs h.channel a l.channels found,
  )
]

length-clear_each :
    (ds : List (String × ℕ)) (arrays : List Slots) → length (clear_each ds arrays) ≡ length arrays
unfolding clear_each
length-clear_each [] arrays = refl
length-clear_each ((c, a) ∷ rest) arrays =
    length-clear_each rest (drop_at arrays a) ∙ length-set arrays a _

pub clear_subscriptions-IsWellFormed :
    (l : Listeners) → IsWellFormed l → IsWellFormed (clear_subscriptions l)
unfolding clear_subscriptions
clear_subscriptions-IsWellFormed l w = record {
  valid = λ d b e. rw (length-clear_each l.channels l.arrays) (w.valid d b e);
  apart = w.apart;
}

-- After `clearListeners` no handle stands for a listener.
pub slot-clear_listeners : (l : Listeners) (h : Handle) → slot (clear_listeners l) h ≡ none
unfolding clear_listeners Dict.lookup
slot-clear_listeners l h = refl

pub clear_listeners-IsWellFormed : (l : Listeners) → IsWellFormed (clear_listeners l)
unfolding clear_listeners Dict.lookup
clear_listeners-IsWellFormed l = record {
  valid = λ c a e. absurd (cc);
  apart = λ c d a e f. absurd (cc);
}
