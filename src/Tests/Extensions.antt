-- ===== src/Tests/Extensions.antt =====
-- media/js/cometd/TimeSyncExtension.js and media/js/cometd/ReloadExtension.js at fixed inputs.
use vurs.Prelude.{
  ℕ, zero, suc, String, true, none, some, [], ◌∷◌, ◌≡◌, refl, ok, arith, ◌<◌, if◌then◌else◌,
}
use vurs.Prelude.Int.{ℤ, pos, negsuc, ◌+ℤ◌, ◌-ℤ◌, leb_ℤ}
use vurs.Value.{Object, arr, item, nil, bool, str, obj, field, end, get}
use vurs.TimeSync
use vurs.TimeSync.{TimeSync, Number, average, samples_or_default}
use vurs.TimeSync.Exchanges.{Exchange, exchange, exchanges}
use vurs.TimeSync.Rounding.{Near}
use vurs.TimeSync.Skewed.{server_time-Near}
use vurs.TimeSync.Window.{Stamps, lag_of, offset_of, observe_all, observe-averages}
use vurs.Reload
use vurs.Reload.{
  Browser, age_or_default, Reload, Replay, restore, resubscribe, put_off, begin_state, reload,
  outgoing, run_replay, cookie_name,
}
use vurs.Reload.Restored.{IsFaithful}
use vurs.Reload.Tracked.{hear, told, tells, outgoing-told}

-- One message comes back two milliseconds later than it went, the other a hundred earlier.
abbrev quick : Exchange
quick = record { sent = pos 1000; there = pos 10; poll = pos 3; back = pos 12 }

abbrev slow : Exchange
slow = record { sent = pos 5000; there = pos 400; poll = pos 30000; back = pos 300 }

-- The server is 70 milliseconds behind.
abbrev synced : TimeSync
synced = exchange (negsuc 69) slow (exchanges (negsuc 69) (quick ∷ []) (TimeSync.new none))

server_time-Near_example :
    (t : ℤ) × (TimeSync.get_server_time (pos 50000) synced ≡ some t)
    × Near 101 (t +ℤ t) (pos 99860)
    × (TimeSync.timeout_delay (pos 50000) (pos 50000) synced
        ≡ some (if leb_ℤ (pos 50000) t then pos 1 else pos 50000 -ℤ t))
unfolding ◌+ℤ◌
server_time-Near_example =
    server_time-Near (negsuc 69) 100 none (quick ∷ []) slow (pos 50000) (pos 50000) (omega arith)
      (omega arith)

abbrev stamps : ℤ → Stamps
stamps now = record { now = some now; tc = some (pos 0); p = some (pos 0); ts = some (pos 0) }

-- One sample is kept of two.
observe-averages_example :
    ((observe_all (stamps (pos 4) ∷ stamps (pos 9) ∷ []) (TimeSync.new (some 1))).lag
      ≡ average (lag_of (stamps (pos 9)) ∷ []))
    × ((observe_all (stamps (pos 4) ∷ stamps (pos 9) ∷ []) (TimeSync.new (some 1))).offset
        ≡ average (offset_of (stamps (pos 9)) ∷ []))
unfolding samples_or_default
observe-averages_example = observe-averages (some 1) (stamps (pos 4) ∷ []) (stamps (pos 9))

-- A browser with one cookie, and a JSON that knows the one state below.
abbrev pub answer : Object
answer = field "channel" (str "/meta/handshake") (
    field "successful" (bool true) (
      field "clientId" (str "7")
        (field "supportedConnectionTypes" (arr (item (str "long-polling") nil)) end)))

abbrev pub state : Object
state = field "url" (str "/cometd") (
    field "handshakeResponse" (obj answer)
      (field "subscriptions" (obj (field "/chat" (bool true) end)) end))

abbrev pub lonely : Browser String
lonely = record {
  cookie = λ name jar. jar;
  set_cookie = λ name value age jar. elim age [ zero ↦ "" | suc n ↦ value ];
  to_json = λ o. "x";
  from_json = λ s. ok (obj state);
}

lonely-kept :
    (name value : String) (age : ℕ) (jar : String)
    → 0 < age
    → lonely.cookie name (lonely.set_cookie name value age jar) ≡ value
lonely-kept name value zero jar h = grind arith
lonely-kept name value (suc n) jar h = refl

pub state-IsFaithful : IsFaithful lonely state
state-IsFaithful = record {
  kept = lonely-kept;
  gone = λ name value jar. refl;
  read_back = refl;
  written = refl;
}

abbrev pub page : Reload String
page = record (Reload.new none "") { state = state }

abbrev handshake : Object
handshake = field "channel" (str "/meta/handshake") end

abbrev about : String → String → Object
about channel subscription =
    field "channel" (str channel)
      (field "subscription" (str subscription) (field "successful" (bool true) end))

abbrev to_chat : Object
to_chat = field "channel" (str "/meta/subscribe") (field "subscription" (str "/chat") end)

-- Subscribed, unsubscribed and subscribed again: the next one is held back.
outgoing-told_example :
    let heard =
      hear
        (about "/meta/subscribe" "/chat"
          ∷ about "/meta/unsubscribe" "/chat"
          ∷ about "/meta/subscribe" "/chat"
          ∷ about "/meta/unsubscribe" "/news"
          ∷ [])
        page in
    outgoing lonely "/cometd" to_chat heard ≡ (put_off (resubscribe (str "/chat")) heard, ok none)
unfolding told tells get
outgoing-told_example =
    outgoing-told lonely "/cometd" "/chat" to_chat
      (about "/meta/subscribe" "/chat"
        ∷ about "/meta/unsubscribe" "/chat"
        ∷ about "/meta/subscribe" "/chat"
        ∷ about "/meta/unsubscribe" "/news"
        ∷ [])
      page (field "/chat" (bool true) end) refl refl refl
