-- ===== src/TimeSync/Rounding.antt =====
-- media/js/cometd/TimeSyncExtension.js: how far a rounded average of samples is off.
use vurs.Prelude.{
  ℕ, zero, suc, ◌+◌, ◌*◌, ◌/◌, ◌≤◌, ◌<◌, ◌≡◌, refl, none, some, List, [], ◌∷◌, length, arith,
}
use vurs.Prelude.Int.{ℤ, pos, negsuc, pos_part, neg_part, ◌+ℤ◌, ◌≤ℤ◌, int_laws}
use native.Mathlib.Nat.{mul-add, mul-suc, le_of_mul-le-mul_left}
use vurs.TimeSync.{Number, minus, rounded, total, average}

-- `x` differs from `y` by at most `d`.
abbrev pub Near : ℕ → ℤ → ℤ → Type 0
Near d x y = (x ≤ℤ y +ℤ pos d) × (y ≤ℤ x +ℤ pos d)

-- `s / (2 * n)`, rounded, is off by at most a half.
half_off :
    (s n : ℕ)
    → 0 < n
    → let q = (2 * s + 2 * n) / (2 * (2 * n)) in (n * (2 * q) ≤ s + n) × (s ≤ n * (2 * q) + n)
half_off s n h = grind arith

cancelled :
    (n x y z w d : ℕ) → 0 < n → n * x + n * y ≤ n * z + n * w + n * d + n → x + y ≤ z + w + suc d
cancelled n x y z w d h p =
    le_of_mul-le-mul_left
      (omega (arith, mul-add n x y, mul-add n (z + w) (suc d), mul-add n z w, mul-suc n d)) h

minus_parts : (q : ℕ) → (pos_part (minus q) ≡ 0) × (neg_part (minus q) ≡ q)
minus_parts zero = (refl, refl)
minus_parts (suc q) = (refl, refl)

-- What the samples in a window sum up to is near `n` times `a` doubled.
abbrev pub SumsNear : ℕ → ℤ → ℕ → ℤ → Type 0
SumsNear d a n z =
    (pos_part z + n * (2 * neg_part a) ≤ neg_part z + n * (2 * pos_part a) + n * d)
    × (neg_part z + n * (2 * pos_part a) ≤ pos_part z + n * (2 * neg_part a) + n * d)

abbrev pub IsNear : ℕ → ℤ → Number → Type 0
IsNear d a none = ⊥
IsNear d a (some z) = Near d z (a +ℤ a)

abbrev pub AllNear : ℕ → ℤ → List Number → Type 0
AllNear d a [] = Unit {0}
AllNear d a (x ∷ xs) = IsNear d a x × AllNear d a xs

suc_times : (n k : ℕ) → suc n * k ≡ n * k + k
suc_times n k = grind arith

SumsNear-next :
    (d : ℕ) (a x z : ℤ) (n : ℕ)
    → Near d x (a +ℤ a)
    → SumsNear d a n z
    → SumsNear d a (suc n) (x +ℤ z)
SumsNear-next d a x z n h k =
    let up = suc_times n (2 * pos_part a) in
    let down = suc_times n (2 * neg_part a) in
    let more = suc_times n d in (omega int_laws, omega int_laws)

total-SumsNear :
    (d : ℕ) (a : ℤ) (xs : List Number)
    → AllNear d a xs
    → (z : ℤ) × (total xs ≡ some z) × SumsNear d a (length xs) z
unfolding total
total-SumsNear d a [] h = (pos 0, refl, ground arith)
total-SumsNear d a (none ∷ xs) h = absurd h.0
total-SumsNear d a (some x ∷ xs) h =
    let (z, same, near) = total-SumsNear d a xs h.1 in
    (x +ℤ z, rw same refl, SumsNear-next d a x z (length xs) h.0 near)

-- `n` samples that sum up to `z`, each at most `d` from `a` doubled: the average, rounded, is at most
-- half of `d` and a half from `a`.
rounded-Near :
    (z a : ℤ) (n d : ℕ)
    → 0 < n
    → SumsNear d a n z
    → let r = rounded z (2 * n) in Near (suc d) (r +ℤ r) (a +ℤ a)
unfolding rounded
rounded-Near (pos s) a n d h near =
    let k = (2 * s + 2 * n) / (2 * (2 * n)) in
    let off = half_off s n h in
    let above = cancelled n (2 * k) (2 * neg_part a) (2 * pos_part a) 0 d h (omega arith) in
    let below = cancelled n (2 * pos_part a) 0 (2 * k) (2 * neg_part a) d h (omega arith) in
    (omega int_laws, omega int_laws)
rounded-Near (negsuc s) a n d h near =
    let k = (2 * suc s + 2 * n) / (2 * (2 * n)) in
    let off = half_off (suc s) n h in
    let parts = minus_parts k in
    let above = cancelled n (2 * neg_part a) 0 (2 * k) (2 * pos_part a) d h (omega arith) in
    let below = cancelled n (2 * k) (2 * pos_part a) (2 * neg_part a) 0 d h (omega arith) in
    (omega int_laws, omega int_laws)

pub average-Near :
    (d : ℕ) (a : ℤ) (xs : List Number)
    → 0 < length xs
    → AllNear d a xs
    → (r : ℤ) × (average xs ≡ some r) × Near (suc d) (r +ℤ r) (a +ℤ a)
unfolding average
average-Near d a [] h near = absurd (omega arith)
average-Near d a (x ∷ xs) h near =
    let (z, same, sums) = total-SumsNear d a (x ∷ xs) near in
    (_, rw same refl, rounded-Near z a (length (x ∷ xs)) d h sums)
