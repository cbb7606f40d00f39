-- ===== src/Client/Configure/Exact.antt =====
-- media/js/cometd.js: every URL, with the host that it names or without one.
use vurs.Prelude.{◌≡◌, String}
use vurs.Client.Configure.{authority}
use vurs.Client.Configure.Domain.{Scheme, scheme_text, Authority, authority_text, IsAuthority, Ends}
use Prim.Native.String.{◌++◌ as ◌<>◌}
use Prim.Native.String.append

-- A URL that names a host: `http:`, `https:` or neither, two slashes, a host of characters but `:`, `/`, `?`
-- and `#`, a colon with digits or neither, and what follows, which makes neither longer.
pub record Parts (url : String) : Type 0 where
  pub scheme : Scheme
  pub authority : Authority
  pub rest : String
  pub whole : url ≡ scheme_text scheme <> ("//" <> (authority_text authority <> rest))
  pub valid : IsAuthority authority
  pub ends : Ends authority.digits rest
