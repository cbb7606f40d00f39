-- ===== src/Tests/Registrations.antt =====
-- media/js/cometd.js: transports, listeners and messages at fixed inputs.
use vurs.Prelude.{ltb, ◌≡◌, refl, some, ℕ, true, false, none, [], ◌∷◌, ok}
use vurs.Value.Objects.{get-mixin}
use vurs.Prelude.Dict
use vurs.Value.{str, obj, mixin, field, end, get}
use vurs.Listeners
use vurs.Listeners.{Listeners, Delegate, Handle, Subscription, Argument, nothing, function}
use vurs.Registry
use vurs.Registry.{Registry}
use vurs.Registry.Consistent.{IsConsistent, empty-IsConsistent, add-IsConsistent}
use vurs.Registry.Negotiate.{FirstUsable, negotiate_transport_lem}
use vurs.Registry.Priorities.{put_at, drop_key, accepting, first_usable}
use vurs.Registry.Refines.{
  Op, adds, removes, finds, negotiates, added as added_now, removed, found, chosen, run, ask,
  ask_all, run-ask_all,
}
use vurs.Listeners.Restore.{remove_listener-add_listener}
use vurs.Prelude.{String, List}
use vurs.Listeners.Laws.{
  Adds, added, empty-IsWellFormed, add_listener-Adds, slot-remove_listener,
  slot-clear_subscriptions,
}
use vurs.Listeners.Slots.{slot, IsWellFormed}
use vurs.Channel.{notified}
use vurs.Channel.Heard.{Hears, notified_iff}
use mathlib.Core.List.{Memᴰ}
use vurs.Prelude.{◌↔◌}

abbrev polling : Registry ℕ
polling = (Registry.add "long-polling" 1 none Registry.empty).0

polling-IsConsistent : IsConsistent polling
polling-IsConsistent = add-IsConsistent "long-polling" 1 none Registry.empty empty-IsConsistent

abbrev both : Registry ℕ
both = (Registry.add "callback-polling" 2 (some 0) polling).0

both-IsConsistent : IsConsistent both
both-IsConsistent = add-IsConsistent "callback-polling" 2 (some 0) polling polling-IsConsistent

negotiate_transport_lem_example :
    FirstUsable
      (λ t. ltb t 2)
      both.transports
      ("callback-polling" ∷ "long-polling" ∷ [])
      both.types
      (Registry.negotiate_transport (λ t. ltb t 2) ("callback-polling" ∷ "long-polling" ∷ []) both)
negotiate_transport_lem_example =
    negotiate_transport_lem (λ t. ltb t 2) both both-IsConsistent
      ("callback-polling" ∷ "long-polling" ∷ [])

abbrev asked : List (Op ℕ)
asked =
    adds "long-polling" 1 none
    ∷ adds "callback-polling" 2 (some 0)
    ∷ adds "long-polling" 3 none
    ∷ finds (λ t. ltb t 3)
    ∷ negotiates (λ t. ltb t 2) ("callback-polling" ∷ "long-polling" ∷ [])
    ∷ removes "callback-polling"
    ∷ finds (λ t. ltb t 3)
    ∷ []

run-ask_all_example :
    run asked Registry.empty
    ≡ added_now true
      ∷ added_now true
      ∷ added_now false
      ∷ found (ok ("callback-polling" ∷ "long-polling" ∷ []))
      ∷ chosen (ok (some ("long-polling", 1)))
      ∷ removed (some 2)
      ∷ found (ok ("long-polling" ∷ []))
      ∷ []
unfolding ask_all ask put_at drop_key accepting first_usable Registry.contains Dict.lookup
run-ask_all_example = run-ask_all asked

abbrev hears : Delegate
hears = record { scope = nothing; method = 1 }

abbrev chat : Listeners
chat = (Listeners.add_listener "/chat" hears true Listeners.empty).0

abbrev in_chat : Handle
in_chat = record { channel = "/chat"; index = 0 }

chat-IsWellFormed : IsWellFormed chat
chat-IsWellFormed = (add_listener-Adds "/chat" hears true Listeners.empty empty-IsWellFormed).3

add_listener-Adds_example :
    Adds "/chat" (added hears false) chat (Listeners.add_listener "/chat" hears false chat)
add_listener-Adds_example = add_listener-Adds "/chat" hears false chat chat-IsWellFormed

slot-remove_listener_example : slot (Listeners.remove_listener in_chat chat) in_chat ≡ none
slot-remove_listener_example = slot-remove_listener in_chat in_chat chat chat-IsWellFormed

slot-clear_subscriptions_example : slot (Listeners.clear_subscriptions chat) in_chat ≡ none
unfolding Listeners.empty Listeners.add_listener Listeners.push_at Listeners.new_array Dict.insert
    Dict.lookup
slot-clear_subscriptions_example = slot-clear_subscriptions chat in_chat

get-mixin_example :
    get "channel" (
      mixin end (
        obj (field "channel" (str "/mine") end)
        ∷ obj (field "channel" (str "/meta/connect") end)
        ∷ []))
    ≡ str "/meta/connect"
unfolding get
get-mixin_example =
    get-mixin "channel" (field "channel" (str "/mine") end)
      (field "channel" (str "/meta/connect") end) (refl, tt) (refl, tt)

notified_test :
    notified "/foo/bar/baz" ≡ "/foo/bar/baz" ∷ "/foo/bar/*" ∷ "/foo/bar/**" ∷ "/foo/**" ∷ "/**" ∷ []
unfolding notified
notified_test = refl

remove_listener-add_listener_example :
    ((h : Handle)
      → slot
          (Listeners.remove_listener
            (Listeners.add_listener "/chat" hears false chat).1
            (Listeners.add_listener "/chat" hears false chat).0)
          h
        ≡ slot chat h)
    × ((j : String)
        → Listeners.has_subscriptions j (
            Listeners.remove_listener
              (Listeners.add_listener "/chat" hears false chat).1
              (Listeners.add_listener "/chat" hears false chat).0)
          ≡ Listeners.has_subscriptions j chat)
remove_listener-add_listener_example =
    remove_listener-add_listener "/chat" hears false chat chat-IsWellFormed

notified_iff_example : Memᴰ "/chat/**" (notified "/chat/room/1") ↔ Hears "/chat/room/1" "/chat/**"
notified_iff_example = notified_iff "/chat/room/1" "/chat/**"
