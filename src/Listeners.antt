-- ===== src/Listeners.antt =====
-- media/js/cometd.js: the listeners of a client, `_listeners`, and the operations that add, remove and
-- clear them. `_listeners` maps a channel to an array that the notification loop keeps a reference
-- to, so the arrays stand in a store and a channel holds the address of its own.
pub mod Slots
pub mod Laws
pub mod Restore
pub mod Counted
use vurs.Prelude.{
  ℕ, suc, String, Bool, true, false, Option, none, some, List, [], ◌∷◌, ◌++◌, if◌then◌else◌, length,
  get_elem?, set, map, Outcome, ok, thrown, message,
}
use vurs.Prelude.Dict

-- What a caller passes for a scope or a callback: nothing (or a false value), a function, a name, or
-- another object.
pub data Argument : Type 0 where
  nothing : Argument
  function : ℕ → Argument
  name : String → Argument
  object : ℕ → Argument

pub record Subscription : Type 0 where
  pub scope : Argument
  pub callback : ℕ
  pub subscription : Bool

-- A deleted element leaves a hole.
abbrev pub Slots : Type 0
Slots = List (Option Subscription)

pub record Listeners : Type 0 where
  pub channels : List (String × ℕ)
  pub arrays : List Slots

-- What a registration returns: the channel and the index.
pub record Handle : Type 0 where
  pub channel : String
  pub index : ℕ

pub record Delegate : Type 0 where
  pub scope : Argument
  pub method : ℕ

-- `method_of` reads a property of the page's objects, with `none` for what is no function.
unfoldable pub by_name : Option ℕ → Argument → Outcome Delegate
by_name none scope = thrown (message "Invalid callback")
by_name (some f) scope = ok (record { scope = scope; method = f })

unfoldable pub resolve_scoped_callback :
    (Argument → String → Option ℕ) → Argument → Argument → Outcome Delegate
unfolding by_name
resolve_scoped_callback method_of (function f) callback =
    ok (record { scope = nothing; method = f })
resolve_scoped_callback method_of nothing (name k) = thrown (message "Invalid scope")
resolve_scoped_callback method_of scope (name k) = by_name (method_of scope k) scope
resolve_scoped_callback method_of scope (function f) = ok (record { scope = scope; method = f })
resolve_scoped_callback method_of scope _ = thrown (message "Invalid callback")

unfoldable pub empty : Listeners
empty = record { channels = []; arrays = [] }

-- The array at an address.
abbrev pub slots_at : List Slots → ℕ → Slots
slots_at arrays a = elim (get_elem? arrays a) [ none ↦ [] | some slots ↦ slots ]

-- `_listeners[channel]`
abbrev pub subscriptions : String → Listeners → Option Slots
subscriptions channel l = elim (Dict.lookup channel l.channels) [
  | none ↦ none
  | some a ↦ some (slots_at l.arrays a)
]

unfoldable pub any_slot : Slots → Bool
any_slot [] = false
any_slot (none ∷ slots) = any_slot slots
any_slot (some s ∷ slots) = true

unfoldable pub has_subscriptions : String → Listeners → Bool
unfolding any_slot
has_subscriptions channel l = elim (subscriptions channel l) [
  | none ↦ false
  | some slots ↦ any_slot slots
]

-- The rest of `_addListener`, once the array of the channel is known.
unfoldable pub push_at : String → ℕ → Subscription → Listeners → Listeners × Handle
push_at channel a s l = (
  record l { arrays = set l.arrays a (slots_at l.arrays a ++ some s ∷ []) },
  record { channel = channel; index = length (slots_at l.arrays a) },
)

-- `_listeners[channel] = []`
unfoldable pub new_array : String → Listeners → Listeners
new_array channel l = record {
  channels = Dict.insert channel (length l.arrays) l.channels;
  arrays = l.arrays ++ [] ∷ [];
}

unfoldable pub add_listener : String → Delegate → Bool → Listeners → Listeners × Handle
unfolding push_at new_array
add_listener channel d is_subscription l =
    let s : Subscription = record {
      scope = d.scope;
      callback = d.method;
      subscription = is_subscription;
    } in
    elim (Dict.lookup channel l.channels) [
      | none ↦ push_at channel (length l.arrays) s (new_array channel l)
      | some a ↦ push_at channel a s l
    ]

unfoldable pub remove_listener : Handle → Listeners → Listeners
remove_listener h l = elim (Dict.lookup h.channel l.channels) [
  | none ↦ l
  | some a ↦ record l { arrays = set l.arrays a (set (slots_at l.arrays a) h.index none) }
]

unfoldable pub drop_subscription : Option Subscription → Option Subscription
drop_subscription none = none
drop_subscription (some s) = if s.subscription then none else some s

-- The body of the loop of `_clearSubscriptions` over the channels.
unfoldable pub clear_each : List (String × ℕ) → List Slots → List Slots
unfolding drop_subscription
clear_each [] arrays = arrays
clear_each ((channel, a) ∷ rest) arrays =
    clear_each rest (set arrays a (map drop_subscription (slots_at arrays a)))

unfoldable pub clear_subscriptions : Listeners → Listeners
unfolding clear_each
clear_subscriptions l = record l { arrays = clear_each l.channels l.arrays }

unfoldable pub clear_listeners : Listeners → Listeners
clear_listeners l = record l { channels = [] }
