-- ===== src/Client/Numbered.antt =====
-- media/js/cometd.js, `_send`: the messages of an envelope, numbered and seen by the extensions.
use vurs.Prelude.{
  ℕ, suc, ◌+◌, ◌<◌, String, Bool, Option, List, [], ◌∷◌, ◌≡◌, refl, ap, ◌∙◌, arith, if◌then◌else◌,
  length, ok,
}
use vurs.Prelude.Int.{pos}
use vurs.Value.{Value, Object, num, put, truthy}
use vurs.Client.State.{Client, Host}
use vurs.Client.Sending.{stamp, stamped, cons_if, prepare, deliver, send}
use vurs.Client.Chain.{Pure, lift, through, applied-through}

-- A message with its number, and with the client's id where it is known.
abbrev pub marked : Value → ℕ → Object → Object
marked client_id n m =
    let m' = put "id" (num (pos n)) m in
    if truthy client_id then put "clientId" client_id m' else m'

-- Messages numbered from `n` on, each as the extensions make it, and without those they drop.
unfoldable pub numbered : (Object → Option Object) → Value → ℕ → List Object → List Object
numbered made client_id n [] = []
numbered made client_id n (m ∷ ms) =
    cons_if (made (marked client_id n m)) (numbered made client_id (suc n) ms)

-- The client once the messages have their numbers.
abbrev pub counted : {W : Type 0} → ℕ → Client W → Client W
counted n s = record s { message_id = s.message_id + n }

module _ {W : Type 0} (host : Host W) (inward outward : ℕ → Option Pure)
    (comes : (e : ℕ) → host.incoming e ≡ lift (inward e))
    (goes : (e : ℕ) → host.outgoing e ≡ lift (outward e)) (made : Object → Option Object) where
  prepare-numbered :
      (ms : List Object) (s : Client W)
      → length s.extensions < host.rounds
      → ((m : Object) → through outward s.extensions m ≡ ok (made m))
      → prepare host ms s
        ≡ (counted (length ms) s, ok (numbered made s.client_id (suc s.message_id) ms))
  unfolding prepare numbered stamp
  prepare-numbered [] s few makes =
      let same : s.message_id ≡ s.message_id + 0 = omega arith in
      ap (λ n. (record s { message_id = n }, ok [])) same
  prepare-numbered (m ∷ ms) s few makes =
      let t = record s { message_id = suc s.message_id } in
      let out =
        (applied-through host inward outward comes goes (stamped s m) t few).1
        ∙ ap (λ r. (t, r)) (makes (stamped s m)) in
      let same : suc s.message_id + length ms ≡ s.message_id + suc (length ms) = omega arith in
      let rest = numbered made s.client_id (suc (suc s.message_id)) ms in
      rw (out, prepare-numbered ms t few makes)
        (ap (λ n. (record s { message_id = n }, ok (cons_if (made (stamped s m)) rest))) same)

  -- Where the extensions leave the client alone, are fewer than the bound on the rounds, and make of each
  -- outgoing message what `made` says: `_send` gives the messages consecutive numbers from the next
  -- one on and the client's id where it is known, passes each through the extensions, leaves out
  -- those that they drop, and delivers the others, in order, in one envelope.
  pub send-numbered :
      (ms : List Object) (longpoll : Bool) (extra_path : Option String) (s : Client W)
      → length s.extensions < host.rounds
      → ((m : Object) → through outward s.extensions m ≡ ok (made m))
      → send host ms longpoll extra_path s
        ≡ deliver host longpoll extra_path
            (numbered made s.client_id (suc s.message_id) ms)
            (counted (length ms) s)
  unfolding send
  send-numbered ms longpoll extra_path s few makes = rw (prepare-numbered ms s few makes) refl
