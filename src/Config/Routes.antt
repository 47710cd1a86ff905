-- ===== src/Config/Routes.antt =====
-- The addresses and routes that `ResolveWith` derives.
use clatto.Base.{
  if◌then◌else◌, Bool, true, false, not, ◌&&◌, Option, none, some, List, [], ◌∷◌, ◌++◌,
}
use clatto.Netip.{Addr, Prefix, is4, eq_prefix, masked}
use clatto.Netconf.{Route, Shared, member}
use clatto.Addrmap.Entry.{Entry, EntryKind, all4}
use clatto.Config.{Clat}

-- `Route.netconf`.
abbrev pub netconf_route : Route → Route
netconf_route r = record r { prefix = masked r.prefix }

-- `dedupe`; `seen` is its map.
unfoldable pub dedupe_from : List Prefix → List Prefix → List Prefix
dedupe_from seen [] = []
dedupe_from seen (p ∷ ps) =
    let rest = dedupe_from seen ps in
    let more = dedupe_from (p ∷ seen) ps in if member eq_prefix p seen then rest else p ∷ more

abbrev pub dedupe : List Prefix → List Prefix
dedupe ps = dedupe_from [] ps

-- The host's IPv4 address of a CLAT is an address of the interface too.
abbrev pub clat_addresses : Option Shared → Option Clat → List Prefix
clat_addresses (some s) (some c) = record { addr = c.ipv4_address; bits = 32 } ∷ []
clat_addresses _ _ = []

abbrev pub resolve_addresses : List Prefix → Option Shared → Option Clat → List Prefix
resolve_addresses given shared clat = dedupe (given ++ clat_addresses shared clat)

abbrev pub plain_route : Prefix → Route
plain_route p = record { prefix = p; metric = 0; mtu = 0; adv_mss = 0 }

abbrev pub is_some : {A : Type 0} → Option A → Bool
is_some none = false
is_some (some x) = true

-- The variables of the loop over the entries that do not change.
pub record AutoContext : Type 0 where
  pub shared : Option Shared
  pub shared6 : Addr
  pub ipv4 : Addr
  pub v6_derived : Bool

unfoldable pub auto_of : AutoContext → Entry → List Route
auto_of c e = elim e.kind [
  | EntryKind.static ↦
      if is_some c.shared && eq_prefix e.net6 (record { addr = c.shared6; bits = 128 })
      then []
      else if eq_prefix e.net4 (record { addr = c.ipv4; bits = 32 }) && not c.v6_derived
      then plain_route e.net4 ∷ plain_route e.net6 ∷ []
      else plain_route e.net4 ∷ []
  | EntryKind.rfc6052 ↦ if is_some c.shared then [] else plain_route e.net6 ∷ []
  | EntryKind.dynamic_pool ↦ plain_route e.net4 ∷ []
  | EntryKind.dynamic_host ↦ []
]

unfoldable pub auto_all : AutoContext → List Entry → List Route
auto_all c [] = []
auto_all c (e ∷ es) = auto_of c e ++ auto_all c es

-- `0.0.0.0/0` for a CLAT.
unfoldable pub auto_routes : AutoContext → List Entry → List Route
auto_routes c es = auto_all c es ++ (if is_some c.shared then plain_route all4 ∷ [] else [])

-- Both loops that install routes, over `seen` and the routes so far.
pub record RouteSet : Type 0 where
  pub seen : List Prefix
  pub routes4 : List Route
  pub routes6 : List Route

unfoldable pub add_route : RouteSet → Route → RouteSet
add_route s r =
    if member eq_prefix r.prefix s.seen
    then s
    else if is4 r.prefix.addr
    then record s { seen = r.prefix ∷ s.seen; routes4 = s.routes4 ++ r ∷ [] }
    else record s { seen = r.prefix ∷ s.seen; routes6 = s.routes6 ++ r ∷ [] }

unfoldable pub add_routes : RouteSet → List Route → RouteSet
add_routes s [] = s
add_routes s (r ∷ rs) = add_routes (add_route s r) rs

abbrev pub netconf_routes : List Route → List Route
netconf_routes [] = []
netconf_routes (r ∷ rs) = netconf_route r ∷ netconf_routes rs

abbrev pub no_routes : RouteSet
no_routes = record { seen = []; routes4 = []; routes6 = [] }

unfoldable pub resolve_routes : List Route → List Route → RouteSet
resolve_routes explicit auto = add_routes (add_routes no_routes (netconf_routes explicit)) auto
