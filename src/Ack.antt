-- ===== src/Ack.antt =====
-- media/js/cometd/AckExtension.js: the acknowledgement of the messages received.
pub mod Exchange
use vurs.Prelude.{Bool, true, false, String, ◌&&◌, if◌then◌else◌}
use vurs.Prelude.Int.{ℤ, pos, negsuc}
use vurs.Value.{Value, Object, undefined, null, bool, num, obj, end, get, put, prop, truthy, is_str}

-- The variables of the extension. `server_supports_acks` holds what `message.ext && message.ext.ack`
-- evaluates to; `enabled` stands for `_cometd`, by what `_cometd && _cometd.ackEnabled !== false`
-- evaluates to.
pub record Ack : Type 0 where
  pub server_supports_acks : Value
  pub ack_id : ℤ
  pub enabled : Value

unfoldable pub new : Ack
new = record { server_supports_acks = bool false; ack_id = negsuc 0; enabled = undefined }

-- `ack_enabled` is whether the client's property `ackEnabled` is not false.
unfoldable pub registered : Bool → Ack → Ack
registered ack_enabled a = record a { enabled = bool ack_enabled }

unfoldable pub unregistered : Ack → Ack
unregistered a = record a { enabled = null }

-- `a && b`
abbrev pub and_then : Value → Value → Value
and_then a b = if truthy a then b else a

-- `if (ext && typeof ext.ack === 'number') { _ackId = ext.ack; }`, from `ext.ack`.
unfoldable pub acknowledge : Value → Ack → Ack
acknowledge (num n) a = record a { ack_id = n }
acknowledge _ a = a

unfoldable pub incoming : Object → Ack → Ack
unfolding acknowledge
incoming m a =
    if is_str "/meta/handshake" (get "channel" m)
    then record a { server_supports_acks = and_then (get "ext" m) (prop "ack" (get "ext" m)) }
    else if truthy a.server_supports_acks
        && is_str "/meta/connect" (get "channel" m)
        && truthy (get "successful" m)
    then (if truthy (get "ext" m) then acknowledge (prop "ack" (get "ext" m)) a else a)
    else a

-- `message.ext.ack = v`, on a value that is no object without effect.
abbrev pub with_ack : Value → Value → Value
with_ack v (obj o) = obj (put "ack" v o)
with_ack v x = x

-- `if (!message.ext) { message.ext = {}; } message.ext.ack = v`
unfoldable pub put_ack : Value → Object → Object
put_ack v m =
    let ext = if truthy (get "ext" m) then get "ext" m else obj end in put "ext" (with_ack v ext) m

unfoldable pub outgoing : Object → Ack → Ack × Object
unfolding put_ack
outgoing m a =
    if is_str "/meta/handshake" (get "channel" m)
    then (record a { ack_id = negsuc 0 }, put_ack a.enabled m)
    else if truthy a.server_supports_acks && is_str "/meta/connect" (get "channel" m)
    then (a, put_ack (num a.ack_id) m)
    else (a, m)
