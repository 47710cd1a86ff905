-- ===== src/Config/SharedAddress.antt =====
-- The checks of `ResolveWith` on a CLAT that shares the host's address.
use Prim.Native.String.{String}
use clatto.Base.{
  ◌==◌, ltb, if◌then◌else◌, not, ◌&&◌, ◌||◌, Option, none, some, List, [], ◌∷◌, ◌++◌, ok, err,
}
use clatto.Netutil.{valid6}
use clatto.Netip.{
  Addr, Prefix, v4, is4, is6, is_4in6, as16, eq_addr, contains, is_valid_addr, is_valid_prefix,
}
use clatto.Netconf.{Filter}
use clatto.Addrmap.Entry.{add_static}
use clatto.Config.{Config, Clat, shared_address, default_clat_table}
use clatto.Config.Words.{Texts, ◌===◌}
use clatto.Config.Filters.{parse_filter}
use clatto.Config.Draft.{
  Draft, fail, fail_if, warn, attempt, has_errors, clat_not_ipv4, clat_own_ipv4,
  clat_reserved_table, clat_bad_table, clat_no_prefix, clat_ports, clat_no_detection,
  clat_no_source, clat_bad_ipv6, clat_not_ipv6, clat_reserved_ipv6, clat_inside_prefix, clat_static,
}

-- `ResolveOptions.SourceAddr`, which may be nil, and then fails or gives an address.
abbrev pub SourceAddrType : Type 0
SourceAddrType = Option (Addr → Option Addr)

abbrev pub default_translator : Addr
default_translator = v4 (192, 0, 0, 2)

abbrev pub default_host : Addr
default_host = v4 (192, 0, 0, 1)

-- The defaults of the copy `cc`, and of the translator's own address.
abbrev pub fill_clat : Clat → Clat
fill_clat c = record c {
  ipv4_address = if is_valid_addr c.ipv4_address then c.ipv4_address else default_host;
  table = if c.table == 0 then default_clat_table else c.table;
}

abbrev pub own_ipv4 : Addr → Addr
own_ipv4 a = if is_valid_addr a then a else default_translator

unfoldable pub check_clat_ipv4 : Clat → Draft → Draft
check_clat_ipv4 c d =
    if not (is4 c.ipv4_address)
    then fail clat_not_ipv4 d
    else fail_if (eq_addr c.ipv4_address d.ipv4) clat_own_ipv4 d

unfoldable pub check_clat_table : Clat → Draft → Draft
check_clat_table c d =
    if c.table == 255 || c.table == 254 || c.table == 253
    then fail clat_reserved_table d
    else fail_if (ltb c.table 1 || ltb 0xfffffffe c.table) clat_bad_table d

-- The loop over the ports: the filters so far, and the draft.
unfoldable pub read_ports : Texts → List String → List Filter → Draft → List Filter × Draft
read_ports t [] fs d = (fs, d)
read_ports t (s ∷ ss) fs d = elim (parse_filter t s) [
  | err e ↦ read_ports t ss fs (fail (clat_ports e) d)
  | ok f ↦ read_ports t ss (fs ++ f ∷ []) d
]

abbrev pub of_source : Option Addr → Draft → Draft
of_source none d = fail clat_no_source d
of_source (some a) d = warn (shared_address a) (record d { shared6 = a })

abbrev pub detect : SourceAddrType → Prefix → Draft → Draft
detect none prefix d = fail clat_no_detection d
detect (some source) prefix d = of_source (source prefix.addr) d

abbrev pub of_address : Option Addr → Draft → Draft
of_address none d = fail clat_bad_ipv6 d
of_address (some a) d = record d { shared6 = a }

unfoldable pub find_shared : Texts → SourceAddrType → Config → Clat → Draft → Draft
find_shared t source cfg c d =
    if not (is_valid_prefix cfg.prefix)
    then fail clat_no_prefix d
    else if c.ipv6_address === "" || t.equal_fold c.ipv6_address "auto"
    then detect source cfg.prefix d
    else of_address (t.parse_addr c.ipv6_address) d

-- `cc.IPv6Address` becomes the address that was found.
unfoldable pub name_shared : Texts → Clat → Draft → Draft
name_shared t c d = record d { clat = some (record c { ipv6_address = t.show_addr d.shared6 }) }

-- The shared address is checked and mapped to the host's IPv4 address.
unfoldable pub add_shared : Texts → Config → Clat → Draft → Draft
add_shared t cfg c d =
    if not (is_valid_addr d.shared6)
    then d
    else if not (is6 d.shared6) || is_4in6 d.shared6
    then fail clat_not_ipv6 d
    else if not (valid6 (as16 d.shared6))
    then fail clat_reserved_ipv6 d
    else if is_valid_prefix cfg.prefix && contains cfg.prefix d.shared6
    then fail clat_inside_prefix d
    else attempt clat_static
        (add_static d.builder (record { addr = c.ipv4_address; bits = 32 })
          (record { addr = d.shared6; bits = 128 }))
        (name_shared t c d)

unfoldable pub share : Config → Clat → List Filter → Draft → Draft
share cfg c filters d = if has_errors d then d else record d {
  shared =
      some (record { addr = d.shared6; from = cfg.prefix; table = c.table; filters = filters });
}

unfoldable pub check_clat : Texts → SourceAddrType → Config → Clat → Draft → Draft
check_clat t source cfg given d =
    let c = fill_clat given in
    let r = read_ports t c.ports [] (
      check_clat_table c
        (check_clat_ipv4 c (record d { ipv4 = own_ipv4 d.ipv4; clat = some c }))) in
    share cfg c r.0 (add_shared t cfg c (find_shared t source cfg c r.1))

unfoldable pub resolve_clat : Texts → SourceAddrType → Config → Draft → Draft
resolve_clat t source cfg d = elim cfg.clat [ none ↦ d | some c ↦ check_clat t source cfg c d ]
