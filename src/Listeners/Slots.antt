-- ===== src/Listeners/Slots.antt =====
-- media/js/cometd.js: which listener a handle stands for, and what adding, removing and clearing do
-- to it and to every other handle.
use vurs.Prelude.{
  ℕ, zero, suc, ◌<◌, String, Bool, Option, none, some, List, [], ◌∷◌, ◌++◌, ◌===◌, ◌≡◌, refl, inl,
  inr, arith, if◌then◌else◌, ◌==◌, ◌&&◌, length, get_elem?, set, map, eq_iff, Option-cases,
  length-set, length-append, ap, ◌∙◌,
}
use vurs.Prelude.Dict
use vurs.Listeners.{
  Listeners, Slots, Subscription, Handle, slots_at, push_at, new_array, drop_subscription,
  clear_each, clear_subscriptions,
}

-- The content of a slot of an array, with `none` for a hole and past the end.
abbrev pub at : Slots → ℕ → Option Subscription
at slots i = elim (get_elem? slots i) [ none ↦ none | some s ↦ s ]

-- The listener that a handle stands for.
abbrev pub slot : Listeners → Handle → Option Subscription
slot l h = elim (Dict.lookup h.channel l.channels) [
  | none ↦ none
  | some a ↦ at (slots_at l.arrays a) h.index
]

-- Each channel has an array of its own.
pub record IsWellFormed (l : Listeners) : Type 0 where
  pub valid : (c : String) (a : ℕ) → Dict.lookup c l.channels ≡ some a → a < length l.arrays
  pub apart :
      (c d : String) (a : ℕ)
      → Dict.lookup c l.channels ≡ some a
      → Dict.lookup d l.channels ≡ some a
      → c ≡ d

abbrev pub same_handle : Handle → Handle → Bool
same_handle h k = h.channel === k.channel && h.index == k.index

at-push :
    (slots : Slots) (s : Subscription) (i : ℕ)
    → at (slots ++ some s ∷ []) i ≡ (if length slots == i then some s else at slots i)
at-push [] s zero = refl
at-push [] s (suc i) = ground arith
at-push (x ∷ slots) s zero = ground arith
at-push (x ∷ slots) s (suc i) = ground (arith, at-push slots s i)

pub at-length : (slots : Slots) → at slots (length slots) ≡ none
at-length [] = refl
at-length (x ∷ slots) = at-length slots

pub at-set :
    (slots : Slots) (i j : ℕ) → at (set slots i none) j ≡ (if i == j then none else at slots j)
at-set [] i j = ground arith
at-set (x ∷ slots) zero zero = refl
at-set (x ∷ slots) zero (suc j) = ground arith
at-set (x ∷ slots) (suc i) zero = ground arith
at-set (x ∷ slots) (suc i) (suc j) = ground (arith, at-set slots i j)

pub at-map :
    (slots : Slots) (i : ℕ) → at (map drop_subscription slots) i ≡ drop_subscription (at slots i)
unfolding drop_subscription
at-map [] i = refl
at-map (x ∷ slots) zero = refl
at-map (x ∷ slots) (suc i) = at-map slots i

pub slots_at-set :
    (arrays : List Slots) (a b : ℕ) (v : Slots)
    → a < length arrays
    → slots_at (set arrays a v) b ≡ (if a == b then v else slots_at arrays b)
slots_at-set [] a b v h = absurd (omega arith)
slots_at-set (x ∷ arrays) zero zero v h = refl
slots_at-set (x ∷ arrays) zero (suc b) v h = ground arith
slots_at-set (x ∷ arrays) (suc a) zero v h = ground arith
slots_at-set (x ∷ arrays) (suc a) (suc b) v h = ground (arith, slots_at-set arrays a b v)

slots_at-append : (arrays : List Slots) (b : ℕ) → slots_at (arrays ++ [] ∷ []) b ≡ slots_at arrays b
slots_at-append [] zero = refl
slots_at-append [] (suc b) = refl
slots_at-append (x ∷ arrays) zero = refl
slots_at-append (x ∷ arrays) (suc b) = slots_at-append arrays b

slots_at-length : (arrays : List Slots) → slots_at arrays (length arrays) ≡ []
slots_at-length [] = refl
slots_at-length (x ∷ arrays) = slots_at-length arrays

-- A listener that is pushed on a channel's array, seen through every handle.
module _ (c : String) (a : ℕ) (s : Subscription) (l : Listeners) (w : IsWellFormed l)
    (e : Dict.lookup c l.channels ≡ some a) where
  pub slot-push_at :
      (h : Handle)
      → slot (push_at c a s l).0 h
        ≡ (if same_handle (push_at c a s l).1 h then some s else slot l h)
  unfolding push_at
  slot-push_at h = elim (Option-cases (Dict.lookup h.channel l.channels)) [
    | inl missing ↦ ground (arith, eq_iff c h.channel)
    | inr (b, found) ↦ ground (
      arith,
      eq_iff c h.channel,
      w.apart c h.channel a e,
      w.valid c a e,
      slots_at-set l.arrays a b (slots_at l.arrays a ++ some s ∷ []) (w.valid c a e),
      at-push (slots_at l.arrays a) s h.index,
    )
  ]

  pub push_at-IsWellFormed : IsWellFormed (push_at c a s l).0
  unfolding push_at
  push_at-IsWellFormed = record {
    valid = λ d b found.
        rw (length-set l.arrays a (slots_at l.arrays a ++ some s ∷ [])) (w.valid d b found);
    apart = w.apart;
  }

-- An array that is new belongs to one channel alone, and no handle sees a difference.
module _ (c : String) (l : Listeners) (w : IsWellFormed l)
    (e : Dict.lookup c l.channels ≡ none) where
  pub slot-new_array : (h : Handle) → slot (new_array c l) h ≡ slot l h
  unfolding new_array
  slot-new_array h = elim (Option-cases (Dict.lookup h.channel l.channels)) [
    | inl missing ↦ ground (
      arith,
      eq_iff c h.channel,
      Dict.lookup-insert c h.channel (length l.arrays) l.channels,
      slots_at-append l.arrays (length l.arrays),
      slots_at-length l.arrays,
    )
    | inr (b, found) ↦ ground (
      arith,
      eq_iff c h.channel,
      Dict.lookup-insert c h.channel (length l.arrays) l.channels,
      slots_at-append l.arrays b,
    )
  ]

  pub new_array-IsWellFormed : IsWellFormed (new_array c l)
  unfolding new_array
  new_array-IsWellFormed = record {
    valid = λ d b found. ground (
      arith,
      eq_iff c d,
      Dict.lookup-insert c d (length l.arrays) l.channels,
      length-append l.arrays ([] ∷ []),
      w.valid d b,
    );
    apart = λ d f b p q. ground (
      arith,
      eq_iff c d,
      eq_iff c f,
      Dict.lookup-insert c d (length l.arrays) l.channels,
      Dict.lookup-insert c f (length l.arrays) l.channels,
      w.valid d b,
      w.valid f b,
      w.apart d f b,
    );
  }

length-map :
    (f : Option Subscription → Option Subscription) (xs : Slots) → length (map f xs) ≡ length xs
length-map f [] = refl
length-map f (x ∷ xs) = ap suc (length-map f xs)

length-slots_at-set :
    (arrays : List Slots) (a b : ℕ) (v : Slots)
    → length v ≡ length (slots_at arrays a)
    → length (slots_at (set arrays a v) b) ≡ length (slots_at arrays b)
length-slots_at-set [] a b v h = refl
length-slots_at-set (x ∷ arrays) zero zero v h = h
length-slots_at-set (x ∷ arrays) zero (suc b) v h = refl
length-slots_at-set (x ∷ arrays) (suc a) zero v h = refl
length-slots_at-set (x ∷ arrays) (suc a) (suc b) v h = length-slots_at-set arrays a b v h

length-clear_each :
    (cs : List (String × ℕ)) (arrays : List Slots) (a : ℕ)
    → length (slots_at (clear_each cs arrays) a) ≡ length (slots_at arrays a)
unfolding clear_each
length-clear_each [] arrays a = refl
length-clear_each ((c, b) ∷ cs) arrays a =
    length-clear_each cs (set arrays b (map drop_subscription (slots_at arrays b))) a
    ∙ length-slots_at-set arrays b a (map drop_subscription (slots_at arrays b))
        (length-map drop_subscription (slots_at arrays b))

-- A page's arrays keep their lengths when the subscriptions are cleared.
pub length-clear_subscriptions :
    (l : Listeners) (a : ℕ)
    → length (slots_at (clear_subscriptions l).arrays a) ≡ length (slots_at l.arrays a)
unfolding clear_subscriptions
length-clear_subscriptions l a = length-clear_each l.channels l.arrays a
