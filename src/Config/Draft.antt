-- ===== src/Config/Draft.antt =====
-- The variables of `ResolveWith` while it collects errors, and its first checks.
use Prim.Native.String.{String}
use clatto.Base.{
  ℕ, ◌==◌, ltb, if◌then◌else◌, Bool, true, false, ◌||◌, Option, none, some, List, [], ◌∷◌, ◌++◌,
  Result, ok, err,
}
use clatto.Netip.{Addr, Prefix, zero_addr, is4, as4, is_valid_prefix}
use clatto.Netutil.{link_local, classify4}
use clatto.Netconf.{Shared}
use clatto.Xlate.Translator.{UdpChecksumMode}
use clatto.Addrmap.Entry.{Builder, AddError, new_builder, add_prefix, add_static}
use clatto.Addrmap.Pool.{Pool, PoolError}
use clatto.Config.{
  Config, Clat, StaticMap, PoolChoice, no_pool, Warning, link_local_map, bool_or, default_interface,
  default_mtu, default_offlink_mtu,
}
use clatto.Config.Words.{Texts, ◌===◌, parse_udp_checksum, parse_addr_or_prefix}
use clatto.Config.Filters.{FilterError}

pub data ConfigError : Type 0 where
  long_name bad_mtu bad_offlink_mtu bad_udp_checksum : ConfigError
  bad_prefix : AddError → ConfigError
  clat_not_ipv4 clat_own_ipv4 clat_reserved_table clat_bad_table clat_no_prefix : ConfigError
  clat_ports : FilterError → ConfigError
  clat_no_detection clat_no_source clat_bad_ipv6 clat_not_ipv6 clat_reserved_ipv6 : ConfigError
  clat_inside_prefix : ConfigError
  clat_static : AddError → ConfigError
  map_ipv4 map_ipv6 nothing_configured : ConfigError
  bad_map : AddError → ConfigError
  no_ipv4 not_ipv4 reserved_ipv4 no_ipv6 not_ipv6 reserved_ipv6 : ConfigError
  ipv6_well_known ipv6_inside_prefix ipv6_underivable ipv6_private ipv6_link_local : ConfigError
  bad_self : AddError → ConfigError
  no_pool_prefix state_file_relative : ConfigError
  bad_pool : PoolError → ConfigError
  second_pool : AddError → ConfigError

-- `ipv4` is `cfg.IPv4Address`, which the checks of a CLAT may set, `clat` the copy `cc`, `v6_derived`
-- and `local6` the variables of these names, and `existing` the pool of the running configuration.
pub record Draft : Type 0 where
  pub errs : List ConfigError
  pub warnings : List Warning
  pub builder : Builder
  pub name : String
  pub mtu : ℕ
  pub offlink_mtu : ℕ
  pub udp_checksum : UdpChecksumMode
  pub ipv4 : Addr
  pub clat : Option Clat
  pub shared6 : Addr
  pub shared : Option Shared
  pub local6 : Addr
  pub v6_derived : Bool
  pub pool : PoolChoice
  pub existing : Option Pool

unfoldable pub fail : ConfigError → Draft → Draft
fail e d = record d { errs = d.errs ++ e ∷ [] }

unfoldable pub fail_if : Bool → ConfigError → Draft → Draft
fail_if b e d = if b then fail e d else d

unfoldable pub warn : Warning → Draft → Draft
warn w d = record d { warnings = d.warnings ++ w ∷ [] }

-- A call of the builder, whose error is collected.
unfoldable pub attempt : (AddError → ConfigError) → Result AddError Builder → Draft → Draft
attempt wrap (ok b) d = record d { builder = b }
attempt wrap (err e) d = fail (wrap e) d

abbrev pub has_errors : Draft → Bool
has_errors d = elim d.errs [ [] ↦ false | e ∷ es ↦ true ]

unfoldable pub start_draft : Config → Option Pool → Draft
start_draft cfg existing = record {
  errs = [];
  warnings = [];
  builder = new_builder (bool_or cfg.wkpf_strict true);
  name = if cfg.interface.name === "" then default_interface else cfg.interface.name;
  mtu = if cfg.interface.mtu == 0 then default_mtu else cfg.interface.mtu;
  offlink_mtu = if cfg.offlink_mtu == 0 then default_offlink_mtu else cfg.offlink_mtu;
  udp_checksum = UdpChecksumMode.drop;
  ipv4 = cfg.ipv4_address;
  clat = none;
  shared6 = zero_addr;
  shared = none;
  local6 = zero_addr;
  v6_derived = false;
  pool = no_pool;
  existing = existing;
}

unfoldable pub check_udp : Texts → Config → Draft → Draft
check_udp t cfg d = elim (parse_udp_checksum t cfg.udp_checksum) [
  | none ↦ fail bad_udp_checksum d
  | some mode ↦ record d { udp_checksum = mode }
]

-- The interface, the MTUs and the checksum mode.
unfoldable pub check_interface : Texts → Config → Draft → Draft
check_interface t cfg d = check_udp t cfg (
    fail_if (ltb d.offlink_mtu 1280) bad_offlink_mtu (
      fail_if (ltb d.mtu 1280 || ltb 65535 d.mtu) bad_mtu
        (fail_if (ltb 15 (t.byte_length d.name)) long_name d)))

unfoldable pub check_prefix : Config → Draft → Draft
check_prefix cfg d =
    if is_valid_prefix cfg.prefix then attempt bad_prefix (add_prefix d.builder cfg.prefix) d else d

-- Whether an address is IPv4 link-local.
unfoldable pub is_link_local : Addr → Bool
is_link_local a =
    if is4 a then (elim (classify4 (as4 a)) [ link_local ↦ true | _ ↦ false ]) else false

unfoldable pub add_map : Option Prefix → Option Prefix → Draft → Draft
add_map none p6 d = fail map_ipv4 d
add_map (some p4) none d = fail map_ipv6 d
add_map (some p4) (some p6) d =
    let d' = if is_link_local p4.addr then warn link_local_map d else d in
    attempt bad_map (add_static d'.builder p4 p6) d'

unfoldable pub add_maps : Texts → List StaticMap → Draft → Draft
add_maps t [] d = d
add_maps t (m ∷ ms) d =
    add_maps t ms (add_map (parse_addr_or_prefix t m.ipv4) (parse_addr_or_prefix t m.ipv6) d)

abbrev pub is_nil : {A : Type 0} → List A → Bool
is_nil [] = true
is_nil (x ∷ xs) = false

unfoldable pub check_maps : Texts → Config → Draft → Draft
check_maps t cfg d =
    let d' = add_maps t cfg.maps d in
    if is_valid_prefix cfg.prefix then d' else fail_if (is_nil cfg.maps) nothing_configured d'
