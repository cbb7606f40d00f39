-- ===== src/Ack/Exchange.antt =====
-- media/js/cometd/AckExtension.js: what is acknowledged.
use vurs.Prelude.{
  Bool, true, false, Option, none, some, List, [], ◌∷◌, ◌≡◌, ◌&&◌, refl, if◌then◌else◌,
}
use vurs.Prelude.Int.{ℤ}
use vurs.Value.{Value, Object, num, str, end, undefined, get, prop, truthy, is_str}
use vurs.Value.Objects.{get-put_self}
use vurs.Ack.{Ack, acknowledge, incoming, outgoing, put_ack}

abbrev pub number : Value → Option ℤ
number (num n) = some n
number _ = none

-- The id that a message from the server carries to be acknowledged: that of a successful answer to a
-- connect.
unfoldable pub ack_of : Object → Option ℤ
ack_of m =
    if is_str "/meta/connect" (get "channel" m)
      && truthy (get "successful" m)
      && truthy (get "ext" m)
    then number (prop "ack" (get "ext" m))
    else none

abbrev pub latest : Option ℤ → ℤ → ℤ
latest none n = n
latest (some k) n = k

-- The last such id among the messages, and the given one when there is none.
abbrev pub last_ack : ℤ → List Object → ℤ
last_ack n [] = n
last_ack n (m ∷ ms) = last_ack (latest (ack_of m) n) ms

-- No message is the answer to a handshake.
abbrev pub NoHandshake : List Object → Type 0
NoHandshake [] = Unit {0}
NoHandshake (m ∷ ms) = (is_str "/meta/handshake" (get "channel" m) ≡ false) × NoHandshake ms

unfoldable pub hear : List Object → Ack → Ack
unfolding incoming
hear [] a = a
hear (m ∷ ms) a = hear ms (incoming m a)

acknowledge-number :
    (v : Value) (a : Ack) → acknowledge v a ≡ record a { ack_id = latest (number v) a.ack_id }
unfolding acknowledge
acknowledge-number (num n) a = refl
acknowledge-number _ a = refl

acknowledged_if :
    (connect successful ext : Bool) (n : Option ℤ) (a : Ack)
    → (if connect && successful
        then (if ext then record a { ack_id = latest n a.ack_id } else a)
        else a)
      ≡ record a { ack_id = latest (if connect && successful && ext then n else none) a.ack_id }
acknowledged_if false successful ext n a = refl
acknowledged_if true false ext n a = refl
acknowledged_if true true false n a = refl
acknowledged_if true true true n a = refl

incoming-ack_of :
    (m : Object) (a : Ack)
    → truthy a.server_supports_acks ≡ true
    → is_str "/meta/handshake" (get "channel" m) ≡ false
    → incoming m a ≡ record a { ack_id = latest (ack_of m) a.ack_id }
unfolding incoming ack_of
incoming-ack_of m a h c =
    rw (c, h, acknowledge-number (prop "ack" (get "ext" m)) a)
      (acknowledged_if (is_str "/meta/connect" (get "channel" m)) (truthy (get "successful" m))
        (truthy (get "ext" m)) (number (prop "ack" (get "ext" m))) a)

hear-last_ack :
    (ms : List Object) (a : Ack)
    → truthy a.server_supports_acks ≡ true
    → NoHandshake ms
    → hear ms a ≡ record a { ack_id = last_ack a.ack_id ms }
unfolding hear
hear-last_ack [] a h c = refl
hear-last_ack (m ∷ ms) a h c = rw (incoming-ack_of m a h c.0) (hear-last_ack ms _ h c.1)

-- After a handshake whose answer announced acknowledgements, whatever messages come in but another
-- handshake's answer, a connect that goes out without an extension field acknowledges the last id that
-- a successful answer to a connect carried, and the id held before when none did.
pub outgoing-last_ack :
    (ms : List Object) (a : Ack) (m : Object)
    → truthy a.server_supports_acks ≡ true
    → NoHandshake ms
    → get "channel" m ≡ str "/meta/connect"
    → get "ext" m ≡ undefined
    → prop "ack" (get "ext" (outgoing m (hear ms a)).1) ≡ num (last_ack a.ack_id ms)
unfolding outgoing put_ack
outgoing-last_ack ms a m h c channel ext =
    rw (hear-last_ack ms a h c, channel, h, ext, get-put_self "ext")
      (get-put_self "ack" (num (last_ack a.ack_id ms)) end)
