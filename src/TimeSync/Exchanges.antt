-- ===== src/TimeSync/Exchanges.antt =====
-- media/js/cometd/TimeSyncExtension.js: messages that the server answers with its time.
use vurs.Prelude.{ℕ, List, [], ◌∷◌}
use vurs.Prelude.Int.{ℤ, pos, ◌+ℤ◌, ◌≤ℤ◌}
use vurs.Value.{Object, str, num, obj, end, field}
use vurs.TimeSync.{TimeSync, incoming}

-- A message that leaves the client at `sent` of its clock, takes `there` to the server, waits for
-- `poll`, and takes `back` to return.
pub record Exchange : Type 0 where
  pub sent : ℤ
  pub there : ℤ
  pub poll : ℤ
  pub back : ℤ

-- What the server answers, its clock being `ahead` of the client's.
abbrev pub answer : ℤ → Exchange → Object
answer ahead e = field "channel" (str "/meta/connect") (
    field "ext"
      (obj (
        field "timesync"
          (obj (
            field "tc" (num e.sent)
              (field "ts" (num (e.sent +ℤ e.there +ℤ ahead)) (field "p" (num e.poll) end))))
          end))
      end)

abbrev pub arrival : Exchange → ℤ
arrival e = e.sent +ℤ e.there +ℤ e.poll +ℤ e.back

unfoldable pub exchange : ℤ → Exchange → TimeSync → TimeSync
unfolding incoming
exchange ahead e s = incoming (arrival e) (answer ahead e) s

unfoldable pub exchanges : ℤ → List Exchange → TimeSync → TimeSync
unfolding exchange
exchanges ahead [] s = s
exchanges ahead (e ∷ es) s = exchanges ahead es (exchange ahead e s)

-- Neither way takes longer than the other by more than `skew`.
abbrev pub IsWithin : ℕ → Exchange → Type 0
IsWithin skew e = (e.there ≤ℤ e.back +ℤ pos skew) × (e.back ≤ℤ e.there +ℤ pos skew)

abbrev pub AllWithin : ℕ → List Exchange → Type 0
AllWithin skew [] = Unit {0}
AllWithin skew (e ∷ es) = IsWithin skew e × AllWithin skew es
