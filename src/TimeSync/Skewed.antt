-- ===== src/TimeSync/Skewed.antt =====
-- media/js/cometd/TimeSyncExtension.js: the estimate where a message may take longer one way than the
-- other.
use vurs.Prelude.{
  ℕ, zero, suc, ◌<◌, ◌≡◌, refl, Bool, true, false, Option, none, some, List, [], ◌∷◌, ◌++◌,
  if◌then◌else◌, length, ltb, length-append, arith,
}
use vurs.Prelude.Int.{ℤ, pos, ◌+ℤ◌, ◌-ℤ◌, int_laws, leb_ℤ, -ℤ_parts}
use vurs.Value.{get}
use vurs.TimeSync.{
  TimeSync, Number, new, samples_or_default, shift_if, offset_sample, observe, get_server_time,
  timeout_delay, at_least_one,
}
use vurs.TimeSync.Exchanges.{Exchange, arrival, exchange, exchanges, IsWithin, AllWithin}
use vurs.TimeSync.Rounding.{Near, IsNear, AllNear, average-Near}

offset_sample-IsNear :
    (a : ℤ) (d : ℕ) (e : Exchange)
    → IsWithin d e
    → IsNear d a (
        offset_sample
          (some (arrival e))
          (some e.sent)
          (some e.poll)
          (some (e.sent +ℤ e.there +ℤ a)))
offset_sample-IsNear a d e h = (omega int_laws, omega int_laws)

append-AllNear :
    (d : ℕ) (a : ℤ) (xs : List Number) (x : Number)
    → AllNear d a xs
    → IsNear d a x
    → AllNear d a (xs ++ x ∷ [])
append-AllNear d a [] x h k = (k, tt)
append-AllNear d a (y ∷ xs) x h k = (h.0, append-AllNear d a xs x h.1 k)

shift_if-AllNear :
    (d : ℕ) (a : ℤ) (full : Bool) (xs : List Number)
    → AllNear d a xs
    → AllNear d a (shift_if full xs)
shift_if-AllNear d a false xs h = h
shift_if-AllNear d a true [] h = tt
shift_if-AllNear d a true (x ∷ xs) h = h.1

-- At least one sample is kept, and every sample is near twice the difference of the clocks.
pub record Tracks (d : ℕ) (a : ℤ) (s : TimeSync) : Type 0 where
  pub room : 0 < s.max_samples
  pub near : AllNear d a s.offsets

new-Tracks : (d : ℕ) (a : ℤ) (max : Option ℕ) → Tracks d a (new max)
unfolding new samples_or_default
new-Tracks d a none = record { room = omega arith; near = tt }
new-Tracks d a (some zero) = record { room = omega arith; near = tt }
new-Tracks d a (some (suc n)) = record { room = omega arith; near = tt }

length-shift_if :
    (max : ℕ) (xs : List Number)
    → 0 < max
    → 0 < length xs
    → 0 < length (shift_if (ltb max (length xs)) xs)
length-shift_if max [] h k = absurd (omega arith)
length-shift_if max (x ∷ xs) h k = ground arith

-- The offset is at most half of `d` and a half from the difference of the clocks.
abbrev Estimates : ℕ → ℤ → TimeSync → Type 0
Estimates d a s = (r : ℤ) × (s.offset ≡ some r) × Near (suc d) (r +ℤ r) (a +ℤ a)

observe-Tracks :
    (d : ℕ) (a : ℤ) (now tc p ts : Number) (s : TimeSync)
    → IsNear d a (offset_sample now tc p ts)
    → Tracks d a s
    → Tracks d a (observe now tc p ts s) × Estimates d a (observe now tc p ts s)
unfolding observe
observe-Tracks d a now tc p ts s h t =
    let pushed = s.offsets ++ offset_sample now tc p ts ∷ [] in
    let full = ltb s.max_samples (length pushed) in
    let near = shift_if-AllNear d a full pushed (append-AllNear d a s.offsets _ t.near h) in
    let some_left : 0 < length pushed =
      omega (arith, length-append s.offsets (offset_sample now tc p ts ∷ [])) in
    (
      record { room = t.room; near = near },
      average-Near d a (shift_if full pushed)
          (length-shift_if s.max_samples pushed t.room some_left) near,
    )

exchange-Tracks :
    (d : ℕ) (a : ℤ) (e : Exchange) (s : TimeSync)
    → IsWithin d e
    → Tracks d a s
    → Tracks d a (exchange a e s) × Estimates d a (exchange a e s)
unfolding exchange get
exchange-Tracks d a e s h t =
    observe-Tracks d a (some (arrival e)) (some e.sent) (some e.poll)
      (some (e.sent +ℤ e.there +ℤ a)) s (offset_sample-IsNear a d e h) t

exchanges-Tracks :
    (d : ℕ) (a : ℤ) (es : List Exchange) (s : TimeSync)
    → AllWithin d es
    → Tracks d a s
    → Tracks d a (exchanges a es s)
unfolding exchanges
exchanges-Tracks d a [] s h t = t
exchanges-Tracks d a (e ∷ es) s h t =
    exchanges-Tracks d a es _ h.1 (exchange-Tracks d a e s h.0 t).0

at_least_one-sub :
    (a b : ℤ) → at_least_one (some (a -ℤ b)) ≡ some (if leb_ℤ a b then pos 1 else a -ℤ b)
at_least_one-sub a b = ground (arith, -ℤ_parts a b)

-- Where no message takes longer one way than the other by more than `skew`, and after one exchange
-- and any number of them before it, whatever the lags, the waits and the number of samples kept: there
-- is an estimate of the server's time, twice of which is within `skew` and one of twice what the
-- server's clock shows; the server time is the estimate; and a timeout for a server time comes
-- when the estimate shows it, or after a millisecond if it has passed.
pub server_time-Near :
    (ahead : ℤ) (skew : ℕ) (max : Option ℕ) (es : List Exchange) (e : Exchange) (now at : ℤ)
    → AllWithin skew es
    → IsWithin skew e
    → let s = exchange ahead e (exchanges ahead es (new max)) in
      (t : ℤ) × (get_server_time now s ≡ some t)
      × Near (suc skew) (t +ℤ t) (now +ℤ ahead +ℤ (now +ℤ ahead))
      × (timeout_delay now at s ≡ some (if leb_ℤ at t then pos 1 else at -ℤ t))
unfolding get_server_time timeout_delay
server_time-Near ahead skew max es e now at hs h =
    let (o, same, near) =
      (exchange-Tracks skew ahead e _ h
        (exchanges-Tracks skew ahead es (new max) hs (new-Tracks skew ahead max))).1 in
    let regrouped : at -ℤ o -ℤ now ≡ at -ℤ (now +ℤ o) = omega int_laws in
    (
      now +ℤ o,
      rw same refl,
      (omega int_laws, omega int_laws),
      rw (same, regrouped) (at_least_one-sub at (now +ℤ o)),
    )
