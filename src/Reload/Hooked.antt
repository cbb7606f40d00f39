-- ===== src/Reload/Hooked.antt =====
-- media/js/cometd/ReloadExtension.js: the extension on a client, whose URL it reads and to which it hands
-- the messages that it puts off.
use vurs.Prelude.{
  Option, none, some, List, [], ◌∷◌, if◌then◌else◌, Outcome, ok, thrown, unfinished, type_error,
  ◌≡◌,
}
use vurs.Value.{Value, Object, null, obj, end, is_absent}
use vurs.Client.State.{Client, Host, Callback, M, return, throw, modify, with_state, ◌>>◌}
use vurs.Client.Messages.{receive}
use vurs.Reload.{Reload, Replay, Browser, outgoing, run_replay}

-- Where a page keeps the extension's variables, and what its transports were given to send.
pub record Place (J W L : Type 0) : Type 0 where
  pub view : W → Reload J
  pub store : Reload J → W → W
  pub log : W → L
  pub view-store : (r : Reload J) (w : W) → view (store r w) ≡ r
  pub log-store : (r : Reload J) (w : W) → log (store r w) ≡ log w

-- The result of `outgoing`: null for a message that is held back.
abbrev pub as_value : Outcome (Option Object) → Outcome Value
as_value (ok none) = ok null
as_value (ok (some m)) = ok (obj m)
as_value (thrown e) = thrown e
as_value unfinished = unfinished

module _ {J W L : Type 0} (place : Place J W L) where
  abbrev pub keep : Reload J → Client W → Client W
  keep r s = record s { world = place.store r s.world }

  -- `this.outgoing`, with `_cometd.getURL()`.
  unfoldable pub on_outgoing : Browser J → Callback W
  unfolding outgoing
  on_outgoing browser m s =
      let (r, result) = outgoing browser s.url m (place.view s.world) in
      (keep r s, m, as_value result)

  module _ (host : Host W) where
    -- `_cometd.receive(v)`: what is no object, but neither undefined nor null, has no properties.
    unfoldable pub receive_value : Value → M W (Unit {0})
    unfolding receive
    receive_value (obj m) = receive host m
    receive_value v = if is_absent v then throw type_error else receive host end

    -- The first of the functions that were given to `setTimeout` runs.
    unfoldable pub replay_first : List Replay → M W (Unit {0})
    unfolding run_replay receive_value
    replay_first [] = return tt
    replay_first (task ∷ rest) = with_state λ s.
        let (r, v) = run_replay task (record (place.view s.world) { pending = rest }) in
        modify (keep r) >> receive_value v

    unfoldable pub fire_replay : M W (Unit {0})
    unfolding replay_first
    fire_replay = with_state λ s. replay_first (place.view s.world).pending
