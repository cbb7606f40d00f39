-- ===== src/TimeSync/Exact.antt =====
-- media/js/cometd/TimeSyncExtension.js: the estimate where the network is symmetric.
use vurs.Prelude.{ℕ, ◌≡◌, Option, some, List, if◌then◌else◌}
use vurs.Prelude.Int.{ℤ, pos, ◌+ℤ◌, ◌-ℤ◌, int_laws, leb_ℤ}
use vurs.TimeSync.{new, get_server_time, timeout_delay}
use vurs.TimeSync.Exchanges.{Exchange, exchange, exchanges, IsWithin, AllWithin}
use vurs.TimeSync.Rounding.{Near}
use vurs.TimeSync.Skewed.{server_time-Near}

exact_of_Near : (t x : ℤ) → Near 1 (t +ℤ t) (x +ℤ x) → t ≡ x
exact_of_Near t x h = omega int_laws

-- Where each message takes as long to the server as back, the estimate is exact: the server time is the
-- client's and the difference of the clocks, and a timeout for a server time comes when the
-- server's clock shows it, or after a millisecond if it has passed.
pub server_time-exact :
    (ahead : ℤ) (max : Option ℕ) (es : List Exchange) (e : Exchange) (now at : ℤ)
    → AllWithin 0 es
    → IsWithin 0 e
    → let s = exchange ahead e (exchanges ahead es (new max)) in
      (get_server_time now s ≡ some (now +ℤ ahead))
      × (timeout_delay now at s
          ≡ some (if leb_ℤ at (now +ℤ ahead) then pos 1 else at -ℤ (now +ℤ ahead)))
server_time-exact ahead max es e now at hs h =
    let (t, time, near, delay) = server_time-Near ahead 0 max es e now at hs h in
    rw (← exact_of_Near t (now +ℤ ahead) near) (time, delay)
