-- ===== src/Channel.antt =====
-- media/js/cometd.js, `_notifyListeners`: the channels whose listeners hear a message, which are the
-- message's own channel and the globbing channels above it.
pub mod Parts
pub mod Heard
use vurs.Prelude.{
  ℕ, zero, suc, ◌-◌, String, Char, code, List, [], ◌∷◌, ◌==◌, if◌then◌else◌, length, take,
}
use Prim.Native.String.{◌++◌ as ◌<>◌}

abbrev pub put_first : Char → List String → List String
put_first c [] = (String.◌∷◌ c "") ∷ []
put_first c (p ∷ ps) = (String.◌∷◌ c p) ∷ ps

-- `channel.split("/")`
unfoldable pub split : String → List String
split String.[] = "" ∷ []
split (String.◌∷◌ c s) =
    let rest = split s in if code c == b'/' then "" ∷ rest else put_first c rest

-- `parts.join("/")`
unfoldable pub join : List String → String
join [] = ""
join (p ∷ []) = p
join (p ∷ q ∷ ps) = p <> "/" <> join (q ∷ ps)

-- `channelParts.slice(0, i).join('/') + '/*'`
abbrev pub single_glob : List String → String
single_glob parts = join parts <> "/*"

abbrev pub deep_glob : List String → String
deep_glob parts = single_glob parts <> "*"

-- The rounds of the loop from `i` down to 1, each with the channels that it notifies in order.
unfoldable pub globs_from : List String → ℕ → ℕ → List String
globs_from parts last zero = []
globs_from parts last (suc i) =
    let before = take (suc i) parts in
    let rest = deep_glob before ∷ globs_from parts last i in
    if suc i == last then single_glob before ∷ rest else rest

-- The channels in the order in which they are notified.
unfoldable pub notified : String → List String
unfolding split join globs_from
notified channel =
    let parts = split channel in let last = length parts - 1 in channel ∷ globs_from parts last last
