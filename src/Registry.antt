-- ===== src/Registry.antt =====
-- media/js/cometd.js, org.cometd.TransportRegistry: the transports known to a client, in order of
-- priority. `T` is a transport; `accept` is its method, applied to the version and the cross-domain
-- flag, which may depend on the transport's state.
pub mod Consistent
pub mod Negotiate
pub mod Priorities
pub mod Refines
use vurs.Prelude.{
  ℕ, String, Bool, true, false, Option, none, some, List, [], ◌∷◌, ◌++◌, ◌===◌, if◌then◌else◌,
  insert_at, Outcome, ok, thrown, unfinished, type_error,
}
use vurs.Prelude.Dict

pub record Registry {ℓ} (T : Type ℓ) : Type ℓ where
  pub types : List String
  pub transports : List (String × T)

-- Whether the scan over an array of strings meets the given one.
unfoldable pub contains : String → List String → Bool
contains t [] = false
contains t (s ∷ ss) = if s === t then true else contains t ss

-- `_types.splice(i, 1)` at the first occurrence.
unfoldable pub remove_type : String → List String → List String
remove_type t [] = []
remove_type t (s ∷ ss) = if s === t then ss else s ∷ remove_type t ss

-- `push` without an index, `splice(index, 0, type)` with one.
unfoldable pub place : Option ℕ → String → List String → List String
place none t ss = ss ++ t ∷ []
place (some i) t ss = insert_at i t ss

module _ {ℓ} {T : Type ℓ} where
  unfoldable pub empty : Registry T
  empty = record { types = []; transports = [] }

  -- The registry, and whether the transport was added.
  unfoldable pub add : String → T → Option ℕ → Registry T → Registry T × Bool
  unfolding contains place
  add t x index r = if contains t r.types then (r, false) else (
    record r { types = place index t r.types; transports = Dict.insert t x r.transports },
    true,
  )

  -- The registry, and the transport that was removed.
  unfoldable pub remove : String → Registry T → Registry T × Option T
  unfolding contains remove_type
  remove t r =
      if contains t r.types
      then (
        record r { types = remove_type t r.types; transports = Dict.delete t r.transports },
        Dict.lookup t r.transports,
      )
      else (r, none)

  module _ (accept : T → Bool) where
    -- `_transports[type].accept(…)`
    unfoldable pub accepts : Option T → Outcome Bool
    accepts none = thrown type_error
    accepts (some x) = ok (accept x)

    unfoldable pub keep_if : String → Outcome Bool → Outcome (List String) → Outcome (List String)
    keep_if t (thrown e) rest = thrown e
    keep_if t unfinished rest = unfinished
    keep_if t (ok b) (thrown e) = thrown e
    keep_if t (ok b) unfinished = unfinished
    keep_if t (ok true) (ok ss) = ok (t ∷ ss)
    keep_if t (ok false) (ok ss) = ok ss

    unfoldable pub find_among : List (String × T) → List String → Outcome (List String)
    unfolding accepts keep_if
    find_among d [] = ok []
    find_among d (t ∷ ts) = keep_if t (accepts (Dict.lookup t d)) (find_among d ts)

    unfoldable pub find_transport_types : Registry T → Outcome (List String)
    unfolding find_among
    find_transport_types r = find_among r.transports r.types

    unfoldable pub first_accepted :
        Option T → Outcome (Option (String × T)) → String → Outcome (Option (String × T))
    first_accepted none rest t = thrown type_error
    first_accepted (some x) rest t = if accept x then ok (some (t, x)) else rest

    unfoldable pub negotiate_among :
        List (String × T) → List String → List String → Outcome (Option (String × T))
    unfolding contains first_accepted
    negotiate_among d [] offered = ok none
    negotiate_among d (t ∷ ts) offered =
        let rest = negotiate_among d ts offered in
        if contains t offered then first_accepted (Dict.lookup t d) rest t else rest

    -- The transport agreed upon with its type, or `none` for null.
    unfoldable pub negotiate_transport : List String → Registry T → Outcome (Option (String × T))
    unfolding negotiate_among
    negotiate_transport offered r = negotiate_among r.transports r.types offered
