-- ===== src/Config/Resolve.antt =====
-- `ResolveWith` of internal/config/config.go, and `ImmutableChanges`. The result has the existing pool
-- with it, whose lease times and reserved addresses the function sets through the pointer.
pub mod Limits
pub mod Existing
pub mod BuiltTable
pub mod Failures
use Prim.Native.String.{String}
use clatto.Base.{
  ℕ, ◌==◌, if◌then◌else◌, Bool, true, false, not, ◌&&◌, Option, none, some, List, [], ◌∷◌, ◌++◌,
  Result, ok, err, ◌>>=◌,
}
use clatto.Netip.{as4, as16}
use clatto.Xlate.Translator
use clatto.Addrmap.Build.{Table, BuildError, build}
use clatto.Addrmap.Table.Entries.{entries}
use clatto.Addrmap.Pool.{Pool}
use clatto.Config.{
  PoolObject, pool_of, PoolChoice, no_pool, existing_pool, new_pool, Config, Resolved, Level,
  bool_or, configures, sets_sysctl,
}
use clatto.Config.Words.{Texts, ◌===◌}
use clatto.Config.Draft.{
  Draft, ConfigError, start_draft, check_interface, check_prefix, check_maps, has_errors,
}
use clatto.Config.SharedAddress.{SourceAddrType, resolve_clat}
use clatto.Config.Local.{check_ipv4, check_ipv6, add_own}
use clatto.Config.Pools.{resolve_pool}
use clatto.Config.Routes.{RouteSet, AutoContext, auto_routes, resolve_addresses, resolve_routes}
use clatto.Config.Logging.{LogError, parse_level, parse_format, parse_kinds, parse_listen}

pub data ResolveError : Type 0 where
  many : List ConfigError → ResolveError
  of_build : BuildError → ResolveError
  of_log : LogError → ResolveError

-- The checks that collect errors, in the order of the source: those after the interface's and before
-- the pool's, and all of them.
unfoldable pub before_pool : Texts → SourceAddrType → Config → Draft → Draft
before_pool t source cfg d = add_own (
    check_ipv6 cfg (
      check_ipv4 (
        check_maps t cfg (resolve_clat t source cfg (check_prefix cfg (check_interface t cfg d))))))

unfoldable pub check_all : Texts → SourceAddrType → Config → Option Pool → Draft
check_all t source cfg existing =
    resolve_pool t cfg (before_pool t source cfg (start_draft cfg existing))

abbrev pub of_logs : {A : Type 0} → Result LogError A → Result ResolveError A
of_logs (ok x) = ok x
of_logs (err e) = err (of_log e)

abbrev pub of_builds : {A : Type 0} → Result BuildError A → Result ResolveError A
of_builds (ok x) = ok x
of_builds (err e) = err (of_build e)

-- The name of a checksum mode.
abbrev pub checksum_name : Translator.UdpChecksumMode → String
checksum_name Translator.UdpChecksumMode.drop = "drop"
checksum_name Translator.UdpChecksumMode.calc = "calc"
checksum_name Translator.UdpChecksumMode.forward = "forward"

-- `r.Config`, with the defaults filled in.
abbrev pub effective : Config → Draft → Config
effective cfg d = record cfg {
  interface = record cfg.interface { name = d.name; mtu = d.mtu };
  offlink_mtu = d.offlink_mtu;
  udp_checksum = checksum_name d.udp_checksum;
  ipv4_address = d.ipv4;
  ipv6_address = d.local6;
  clat = d.clat;
}

abbrev pub translator_config : Draft → Translator.Config
translator_config d = record {
  local_addr4 = as4 d.ipv4;
  local_addr6 = as16 d.local6;
  mtu = d.mtu;
  offlink_mtu = d.offlink_mtu;
  udp_checksum = d.udp_checksum;
}

abbrev pub routes_for : Config → Draft → Table → RouteSet
routes_for cfg d table =
    let context : AutoContext = record {
      shared = d.shared;
      shared6 = d.shared6;
      ipv4 = d.ipv4;
      v6_derived = d.v6_derived;
    } in
    resolve_routes cfg.interface.routes
      (if bool_or cfg.interface.auto_routes true then auto_routes context (entries table) else [])

-- From the table on.
unfoldable pub finish : Texts → Config → Draft → Table → Result ResolveError Resolved
finish t cfg d table =
    let routes = routes_for cfg d table in
    of_logs (parse_level t cfg.log.level) >>= λ level.
    of_logs (parse_format t cfg.log.format) >>= λ json.
    of_logs (parse_kinds t cfg.log.packets) >>= λ kinds. ok (record {
      config = effective cfg d;
      xlate = translator_config d;
      table = table;
      pool = d.pool;
      addresses = resolve_addresses cfg.interface.addresses d.shared d.clat;
      routes4 = routes.routes4;
      routes6 = routes.routes6;
      shared = d.shared;
      warnings = d.warnings;
      log_level = level;
      log_json = json;
      packet_kinds = kinds;
      http_listen = parse_listen t cfg.http.listen;
    })

-- From the draft on.
unfoldable pub settle : Texts → Config → Draft → Result ResolveError Resolved
settle t cfg d =
    if has_errors d
    then err (many d.errs)
    else of_builds (build d.builder) >>= λ table. finish t cfg d table

-- What `Build` does to the existing pool: if there are no errors, and the configuration has that pool,
-- its function `reserved` is that of the new table.
abbrev pub table_for : PoolChoice → Table → Option Table → Option Table
table_for existing_pool table old = some table
table_for no_pool table old = old
table_for (new_pool p) table old = old

unfoldable pub reserved_after : Draft → Option Table → Option Table
reserved_after d old =
    if has_errors d
    then old
    else elim (build d.builder) [ err _ ↦ old | ok table ↦ table_for d.pool table old ]

abbrev pub changed_pool : Draft → PoolObject → Option Pool → PoolObject
changed_pool d o none = o
changed_pool d o (some p) = record { pool = p; reserved = reserved_after d o.reserved }

abbrev pub after_resolve : Draft → Option PoolObject → Option PoolObject
after_resolve d none = none
after_resolve d (some o) = some (changed_pool d o d.existing)

unfoldable pub resolve_with :
    Texts
    → SourceAddrType
    → Config
    → Option PoolObject
    → Result ResolveError Resolved × Option PoolObject
resolve_with t source cfg existing =
    let d = check_all t source cfg (pool_of existing) in (settle t cfg d, after_resolve d existing)

-- The settings that cannot change without a restart.
pub data Setting : Type 0 where
  interface_name interface_mtu interface_configure interface_sysctl : Setting
  http_listen log_format : Setting

abbrev pub eq_bool : Bool → Bool → Bool
eq_bool true b = b
eq_bool false b = not b

abbrev pub changed : Bool → Setting → List Setting
changed same s = if same then [] else s ∷ []

unfoldable pub immutable_changes : Resolved → Resolved → List Setting
immutable_changes old new =
    changed (old.config.interface.name === new.config.interface.name) interface_name
    ++ changed (old.config.interface.mtu == new.config.interface.mtu) interface_mtu
    ++ changed (eq_bool (configures old) (configures new)) interface_configure
    ++ changed (eq_bool (sets_sysctl old) (sets_sysctl new)) interface_sysctl
    ++ changed (old.http_listen === new.http_listen) http_listen
    ++ changed (eq_bool old.log_json new.log_json) log_format
