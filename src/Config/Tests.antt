-- ===== src/Config/Tests.antt =====
-- Runs of the configuration: a NAT64 prefix, a pool, and settings that are refused.
use Prim.Native.String.{String}
use clatto.Base.{
  ℕ, ◌≡◌, ◌≤◌, refl, arith, true, false, Option, none, some, List, [], ◌∷◌, ◌++◌, ok, err,
  if◌then◌else◌,
}
use clatto.Netutil.{classify4, valid6, valid_prefix_len, embed, is_private4}
use clatto.Netip.{zero_addr, v4, v6, Prefix, is4, is_masked, masked}
use clatto.Netconf.{Route, Filter, member}
use clatto.Xlate.Packet.Parse4.{is_invalid4}
use clatto.Xlate.V4.Train.{IsConfig}
use clatto.Addrmap.Entry.{any_rfc6052, add_prefix, add_self}
use clatto.Addrmap.Build.{
  build, sort_by, insert_sorted, place_all, place, place_static, find_host, any_duplicate4,
  check_pool, place6, any_overlap, put6,
}
use clatto.Addrmap.Table.{is_well_known}
use clatto.Addrmap.Table.Entries.{entries, add_unseen, is_seen}
use clatto.Addrmap.Pool.{Pool}
use clatto.Addrmap.Pool.Reports.{sort_slice, insert_by}
use clatto.Config.{Config, PoolObject, pool_of, Resolved, DynamicPool}
use clatto.Config.Words.{Texts, ◌===◌, cut, parse_udp_checksum}
use clatto.Config.Filters.{protocol, port, parse_range, parse_ports, parse_filter}
use clatto.Config.Ports.{IsFilter, FitsPort, parse_filter-IsFilter}
use clatto.Config.Draft.{
  start_draft, check_udp, check_interface, check_prefix, add_maps, check_maps, fail, fail_if,
  attempt,
}
use clatto.Config.SharedAddress.{resolve_clat}
use clatto.Config.Local.{set_local6, check_ipv4, derived_ipv6, derive, check_ipv6, add_own}
use clatto.Config.Pools.{is_reused, resolve_pool, reset_leases}
use clatto.Config.Routes.{
  dedupe_from, auto_of, auto_all, auto_routes, add_route, add_routes, resolve_routes,
  netconf_routes, plain_route,
}
use clatto.Config.RouteLaws.{NoRepeat, prefixes}
use clatto.Config.RouteOrder.{find_route, family, resolve_routes_first}
use clatto.Config.RouteLaws.{resolve_routes-NoRepeat}
use clatto.Config.Logging.{bad_level, parse_level, parse_format, parse_kinds, parse_listen}
use clatto.Config.Resolve.{ResolveError, before_pool, check_all, finish, settle, resolve_with}
use clatto.Config.Resolve.Limits.{resolve_with-limits}
use clatto.Config.Resolve.Failures.{Fate, resolve_with-Fate, resolve_with_refused}

abbrev ports_of : String → Option ℕ
ports_of v = if v === "80" then some 80 else if v === "90" then some 90 else none

abbrev pub texts : Texts
texts = record {
  to_lower = λ s. s;
  equal_fold = λ s t. s === t;
  byte_length = λ s. 5;
  parse_addr = λ s. none;
  parse_prefix = λ s. none;
  parse_port = ports_of;
  is_abs = λ s. true;
  show_addr = λ a. "";
}

ports_fit : FitsPort texts
ports_fit v n h = ground arith

abbrev web : Filter
web = record { proto = 6; start = 80; end = 90 }

parsed : parse_filter texts "tcp/80-90" ≡ ok web
unfolding parse_filter cut protocol parse_ports parse_range port
parsed = refl

parse_filter-IsFilter_example : IsFilter web
parse_filter-IsFilter_example = parse_filter-IsFilter texts "tcp/80-90" web ports_fit parsed

abbrev nat64 : Prefix
nat64 = record { addr = v6 (0x20, 1, 0x0d, 0xb8, 0, 1, 0, 0, 0, 0, 0, 0, 0, 0, 0, 0); bits = 96 }

abbrev pub config : Config
config = record {
  interface = record {
    name = "";
    mtu = 0;
    configure = none;
    addresses = [];
    routes = [];
    auto_routes = none;
    sysctl = none;
  };
  ipv4_address = v4 (192, 0, 2, 1);
  ipv6_address = zero_addr;
  prefix = nat64;
  wkpf_strict = none;
  maps = [];
  dynamic_pool = none;
  clat = none;
  udp_checksum = "";
  offlink_mtu = 0;
  log = record { level = ""; format = ""; packets = [] };
  http = record { listen = ""; admin = false };
}

resolved : (r : Resolved) × ((resolve_with texts none config none).0 ≡ ok r)
unfolding resolve_with check_all before_pool start_draft check_interface check_udp fail_if fail
    attempt parse_udp_checksum check_prefix add_prefix is_masked valid6 valid_prefix_len any_rfc6052
    check_maps add_maps resolve_clat check_ipv4 classify4 check_ipv6 set_local6 derived_ipv6 embed
    derive is_well_known is_private4 add_own add_self is_invalid4 resolve_pool settle build sort_by
    insert_sorted place_all place place_static find_host any_duplicate4 check_pool place6
    any_overlap put6 finish entries add_unseen is_seen sort_slice insert_by auto_of auto_all
    auto_routes add_route add_routes resolve_routes member masked dedupe_from parse_level
    parse_format parse_kinds parse_listen
resolved = (_, refl)

resolve_with-limits_example : IsConfig resolved.0.xlate × (resolved.0.xlate.mtu ≤ 65535)
resolve_with-limits_example = resolve_with-limits texts none config none resolved.0 resolved.1

abbrev pool_prefix : Prefix
pool_prefix = record { addr = v4 (192, 0, 5, 0); bits = 30 }

abbrev pub running : Pool
running = record {
  prefix = pool_prefix;
  base = 0xc0000500;
  max = 3;
  min_lease = 7440;
  max_lease = 1209600;
  used = 1 ∷ [];
  by4 = [];
  mapped = [];
  dormant = [];
  dirty = false;
  log = [];
}

abbrev pub short_leases : DynamicPool
short_leases = record { prefix = pool_prefix; state_file = ""; min_lease = 60; max_lease = 120 }

-- A configuration that is refused, for its log level.
abbrev loud : Config
loud = record config {
  dynamic_pool = some short_leases;
  log = record { level = "loud"; format = ""; packets = [] };
}

unknown_level : parse_level texts "loud" ≡ err bad_level
unfolding parse_level
unknown_level = refl

same_prefix : is_reused (some running) pool_prefix ≡ true
unfolding is_reused
same_prefix = refl

abbrev pub object : PoolObject
object = record { pool = running; reserved = none }

resolve_with_refused_example :
    ((x : ResolveError) × ((resolve_with texts none loud (some object)).0 ≡ err x))
    × (pool_of (resolve_with texts none loud (some object)).1
        ≡ reset_leases short_leases (some running))
resolve_with_refused_example =
    resolve_with_refused texts none loud (some object) short_leases bad_level refl refl same_prefix
      unknown_level

resolve_with-Fate_example :
    Fate loud
      (check_all texts none loud (some running))
      (some object)
      (resolve_with texts none loud (some object)).1
resolve_with-Fate_example = resolve_with-Fate texts none loud (some object)

-- An explicit route for the NAT64 prefix, with a metric, and the automatic routes.
abbrev metric_route : Route
metric_route = record { prefix = nat64; metric = 2048; mtu = 0; adv_mss = 0 }

abbrev automatic : List Route
automatic = plain_route nat64 ∷ plain_route pool_prefix ∷ []

resolve_routes_first_example :
    find_route nat64 (family (is4 nat64.addr) (resolve_routes (metric_route ∷ []) automatic))
    ≡ find_route nat64 (netconf_routes (metric_route ∷ []) ++ automatic)
resolve_routes_first_example = resolve_routes_first (metric_route ∷ []) automatic nat64

resolve_routes-NoRepeat_example :
    NoRepeat (prefixes (resolve_routes (metric_route ∷ []) automatic).routes4)
    × NoRepeat (prefixes (resolve_routes (metric_route ∷ []) automatic).routes6)
resolve_routes-NoRepeat_example = resolve_routes-NoRepeat (metric_route ∷ []) automatic
