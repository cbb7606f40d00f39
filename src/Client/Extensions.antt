-- ===== src/Client/Extensions.antt =====
-- media/js/cometd.js: the extensions of a client, which see each message that goes out or comes in.
use vurs.Prelude.{
  ℕ, zero, suc, ◌-◌, String, Bool, true, false, Option, none, some, List, [], ◌∷◌, ◌===◌,
  if◌then◌else◌, ltb, length, get_elem?, Outcome, ok, thrown, unfinished,
}
use vurs.Value.{Value, Object, undefined, null, obj, end}
use vurs.Client.State.{Extension, Host, Callback, M, return, with_state, run_out, ◌>>=◌}

-- `_applyExtension`, and what the loops make of its result: `none` for undefined or null. What is
-- neither an object nor undefined nor null has no properties.
unfoldable pub result_message : Object → Outcome Value → Outcome (Option Object)
result_message m (thrown e) = ok (some m)
result_message m unfinished = unfinished
result_message m (ok undefined) = ok (some m)
result_message m (ok null) = ok none
result_message m (ok (obj o)) = ok (some o)
result_message m (ok _) = ok (some end)

-- `_extensions[index]` for the i-th round of a loop.
abbrev pub in_order : ℕ → List Extension → Option Extension
in_order i es = get_elem? es i

unfoldable pub in_turn : Bool → ℕ → List Extension → Option Extension
in_turn reverse i es = get_elem? es (if reverse then length es - 1 - i else i)

module _ {W : Type 0} where
  unfoldable pub apply_extension : Option (Callback W) → Object → M W (Option Object)
  unfolding result_message
  apply_extension none m s = (s, ok (some m))
  apply_extension (some callback) m s = let (s', m', r) = callback m s in (s', result_message m' r)

  abbrev pub callback_of : (ℕ → Option (Callback W)) → Option Extension → Option (Callback W)
  callback_of f none = none
  callback_of f (some e) = f e.extension

  -- The loop of `_applyIncomingExtensions` and `_applyOutgoingExtensions` from round `i` on. The array
  -- is read anew in each round, since an extension may change it.
  unfoldable pub apply_from :
      (ℕ → List Extension → Option Extension)
      → (ℕ → Option (Callback W))
      → ℕ
      → ℕ
      → Option Object
      → M W (Option Object)
  unfolding apply_extension
  apply_from pick f zero i m = run_out
  apply_from pick f (suc rounds) i none = return none
  apply_from pick f (suc rounds) i (some m) = with_state λ s.
      let next =
        apply_extension (callback_of f (pick i s.extensions)) m
        >>= apply_from pick f rounds (suc i) in
      if ltb i (length s.extensions) then next else return (some m)

  module _ (host : Host W) where
    unfoldable pub apply_incoming_extensions : Object → M W (Option Object)
    unfolding apply_from in_turn
    apply_incoming_extensions m =
        with_state λ s.
          apply_from (in_turn s.reverse_incoming_extensions) host.incoming host.rounds 0 (some m)

    unfoldable pub apply_outgoing_extensions : Object → M W (Option Object)
    unfolding apply_from
    apply_outgoing_extensions m = apply_from in_order host.outgoing host.rounds 0 (some m)

-- The array as `registerExtension` scans it.
unfoldable pub has_extension : String → List Extension → Bool
has_extension n [] = false
has_extension n (e ∷ es) = if e.name === n then true else has_extension n es

unfoldable pub remove_extension : String → List Extension → List Extension
remove_extension n [] = []
remove_extension n (e ∷ es) = if e.name === n then es else e ∷ remove_extension n es

unfoldable pub find_extension : String → List Extension → Option ℕ
find_extension n [] = none
find_extension n (e ∷ es) = if e.name === n then some e.extension else find_extension n es
