-- ===== src/TimeSync.antt =====
-- media/js/cometd/TimeSyncExtension.js: the estimate of the network lag and of the server's clock.
pub mod Exchanges
pub mod Rounding
pub mod Skewed
pub mod Exact
pub mod Window
use vurs.Prelude.{
  ℕ, zero, suc, ◌+◌, ◌*◌, ◌/◌, String, Char, code, Bool, true, false, Option, none, some, List, [],
  ◌∷◌, ◌++◌, ◌==◌, ◌&&◌, if◌then◌else◌, ltb, length,
}
use vurs.Prelude.Int.{ℤ, pos, negsuc, ◌+ℤ◌, ◌-ℤ◌, leb_ℤ}
use vurs.Value.{Value, Object, null, bool, str, num, obj, end, field, get, put, prop, truthy}

-- A number of the program that is an integer, with `none` for NaN.
abbrev pub Number : Type 0
Number = Option ℤ

-- The samples are halves of integers, so twice their value is kept. The averages are integers.
pub record TimeSync : Type 0 where
  pub max_samples : ℕ
  pub lags : List Number
  pub offsets : List Number
  pub lag : Number
  pub offset : Number

-- `configuration && configuration.maxSamples || 10`
unfoldable pub samples_or_default : Option ℕ → ℕ
samples_or_default none = 10
samples_or_default (some zero) = 10
samples_or_default (some (suc n)) = suc n

unfoldable pub new : Option ℕ → TimeSync
unfolding samples_or_default
new max_samples = record {
  max_samples = samples_or_default max_samples;
  lags = [];
  offsets = [];
  lag = some (pos 0);
  offset = some (pos 0);
}

-- A value in a subtraction. A text and an array count as NaN, also where they would be converted.
abbrev pub to_number : Value → Number
to_number (num n) = some n
to_number null = some (pos 0)
to_number (bool b) = some (if b then pos 1 else pos 0)
to_number _ = none

abbrev pub of_number : Number → Value
of_number none = null
of_number (some n) = num n

infixl 65 ◌+N◌ ◌-N◌
abbrev pub ◌+N◌ : Number → Number → Number
some a +N some b = some (a +ℤ b)
some a +N none = none
none +N b = none

abbrev pub ◌-N◌ : Number → Number → Number
some a -N some b = some (a -ℤ b)
some a -N none = none
none -N b = none

abbrev pub minus : ℕ → ℤ
minus zero = pos 0
minus (suc n) = negsuc n

-- The integer nearest to `z / d`, and the one further from zero if two are: `(z / d).toFixed()`.
unfoldable pub rounded : ℤ → ℕ → ℤ
rounded (pos a) d = pos ((2 * a + d) / (2 * d))
rounded (negsuc a) d = minus ((2 * suc a + d) / (2 * d))

unfoldable pub total : List Number → Number
total [] = some (pos 0)
total (x ∷ xs) = x +N total xs

abbrev pub rounded_number : Number → ℕ → Number
rounded_number none d = none
rounded_number (some z) d = some (rounded z d)

-- `parseInt((sum / samples).toFixed())`, of samples that are kept doubled. Nothing divided by nothing
-- is NaN.
unfoldable pub average : List Number → Number
unfolding total
average [] = none
average (x ∷ xs) = rounded_number (total (x ∷ xs)) (2 * length (x ∷ xs))

-- `shift()`
abbrev pub shift : {A : Type 0} → List A → List A
shift [] = []
shift (x ∷ xs) = xs

abbrev pub shift_if : {A : Type 0} → Bool → List A → List A
shift_if full xs = if full then shift xs else xs

-- Twice `l2`, and twice `o2`.
abbrev pub lag_sample : Number → Number → Number → Number
lag_sample now tc p = now -N tc -N p

abbrev pub offset_sample : Number → Number → Number → Number → Number
offset_sample now tc p ts = ts -N tc +N (ts -N tc) -N lag_sample now tc p

unfoldable pub observe : Number → Number → Number → Number → TimeSync → TimeSync
unfolding average
observe now tc p ts s =
    let pushed = s.offsets ++ offset_sample now tc p ts ∷ [] in
    let full = ltb s.max_samples (length pushed) in
    let lags = shift_if full (s.lags ++ lag_sample now tc p ∷ []) in
    let offsets = shift_if full pushed in
    record s { lags = lags; offsets = offsets; lag = average lags; offset = average offsets }

-- `channel && channel.indexOf('/meta/') === 0`; on what is neither false nor a text the call fails,
-- and the message is handled as one of another channel.
unfoldable pub starts_with : String → String → Bool
starts_with String.[] s = true
starts_with (String.◌∷◌ c p) String.[] = false
starts_with (String.◌∷◌ c p) (String.◌∷◌ d s) = code c == code d && starts_with p s

abbrev pub is_meta : Value → Bool
is_meta (str c) = starts_with "/meta/" c
is_meta _ = false

unfoldable pub incoming : ℤ → Object → TimeSync → TimeSync
unfolding observe starts_with
incoming now m s =
    let timesync = prop "timesync" (get "ext" m) in
    if is_meta (get "channel" m) && truthy (get "ext" m) && truthy timesync
    then observe (some now) (to_number (prop "tc" timesync)) (to_number (prop "p" timesync))
        (to_number (prop "ts" timesync)) s
    else s

abbrev pub timesync_field : ℤ → TimeSync → Object
timesync_field now s =
    field "tc" (num now) (field "l" (of_number s.lag) (field "o" (of_number s.offset) end))

-- `message.ext.timesync = v`
abbrev pub with_timesync : Value → Value → Value
with_timesync v (obj o) = obj (put "timesync" v o)
with_timesync v x = x

unfoldable pub outgoing : ℤ → Object → TimeSync → Object
unfolding starts_with
outgoing now m s =
    let ext = if truthy (get "ext" m) then get "ext" m else obj end in
    if is_meta (get "channel" m)
    then put "ext" (with_timesync (obj (timesync_field now s)) ext) m
    else m

-- `unregistered`
unfoldable pub unregistered : TimeSync → TimeSync
unregistered s = record s { lags = []; offsets = [] }

unfoldable pub get_server_time : ℤ → TimeSync → Number
get_server_time now s = some now +N s.offset

-- The delay that `setTimeout` is called with: NaN is no number at most 0.
abbrev pub at_least_one : Number → Number
at_least_one none = none
at_least_one (some n) = if leb_ℤ n (pos 0) then some (pos 1) else some n

unfoldable pub timeout_delay : ℤ → ℤ → TimeSync → Number
timeout_delay now at s = at_least_one (some at -N s.offset -N some now)
