-- ===== src/Tests/Acks.antt =====
-- media/js/cometd/AckExtension.js at fixed inputs.
use vurs.Prelude.{◌≡◌, refl, true, [], ◌∷◌}
use vurs.Prelude.Int.{ℤ, pos}
use vurs.Value.{Object, str, obj, bool, num, prop, field, end, get}
use vurs.Ack
use vurs.Ack.Exchange.{ack_of, hear, outgoing-last_ack}

abbrev supporting : Ack.Ack
supporting =
    Ack.incoming
      (field "channel" (str "/meta/handshake")
        (field "ext" (obj (field "ack" (bool true) end)) end))
      (Ack.registered true Ack.new)

-- The answer to a connect, with the id of its messages.
abbrev answer : ℤ → Object
answer n =
    field "channel" (str "/meta/connect")
      (field "successful" (bool true) (field "ext" (obj (field "ack" (num n) end)) end))

abbrev connect_out : Object
connect_out = field "channel" (str "/meta/connect") end

outgoing-last_ack_example :
    prop "ack" (
      get "ext"
        (Ack.outgoing connect_out (hear (answer (pos 4) ∷ answer (pos 7) ∷ []) supporting)).1)
    ≡ num (pos 7)
unfolding Ack.new Ack.registered Ack.incoming get ack_of
outgoing-last_ack_example =
    outgoing-last_ack (answer (pos 4) ∷ answer (pos 7) ∷ []) supporting connect_out refl
      (refl, (refl, tt)) refl refl
