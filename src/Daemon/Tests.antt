-- ===== src/Daemon/Tests.antt =====
-- A reload that keeps the pool and changes the name of the interface.
use clatto.Base.{ℕ, ◌≡◌, ◌+◌, refl, true, false, none, some, [], ◌∷◌, ok}
use clatto.Netutil.{classify4, valid6, valid_prefix_len, embed, is_private4}
use clatto.Netip.{is_masked, masked}
use clatto.Netconf.{member}
use clatto.Xlate.Packet.Parse4.{is_invalid4}
use clatto.Addrmap.Entry.{any_rfc6052, add_prefix, add_self, set_pool}
use clatto.Addrmap.Build.{
  build, sort_by, insert_sorted, place_all, place, place_static, find_host, any_duplicate4,
  check_pool, pool_conflict, place6, any_overlap, put6,
}
use clatto.Addrmap.Table.{is_well_known}
use clatto.Addrmap.Table.Entries.{entries, add_unseen, is_seen}
use clatto.Addrmap.Pool.Reports.{sort_slice, insert_by}
use clatto.Config.{Config, Resolved, PoolObject, existing_pool}
use clatto.Config.Words.{parse_udp_checksum}
use clatto.Config.Draft.{
  start_draft, check_udp, check_interface, check_prefix, add_maps, check_maps, fail, fail_if,
  attempt, is_link_local,
}
use clatto.Config.SharedAddress.{resolve_clat}
use clatto.Config.Local.{set_local6, check_ipv4, derived_ipv6, derive, check_ipv6, add_own}
use clatto.Config.Pools.{is_reused, resolve_pool, choose_pool, add_pool}
use clatto.Config.Routes.{
  dedupe_from, auto_of, auto_all, auto_routes, add_route, add_routes, resolve_routes,
}
use clatto.Config.Logging.{parse_level, parse_format, parse_kinds, parse_listen}
use clatto.Config.Resolve.{
  interface_name, before_pool, check_all, finish, settle, resolve_with, immutable_changes,
}
use clatto.Config.Tests.{texts, config, object, short_leases}
use clatto.Daemon.{Environment, Daemon, immutable, netconf_options, resolve_for, apply}
use clatto.Daemon.Outcome.{Outcome}
use clatto.Daemon.Laws.{apply-Outcome}
use clatto.Daemon.Reserved.{apply_refused-reserved}

abbrev pooled : Config
pooled = record config { dynamic_pool = some short_leases }

reloaded : (r : Resolved) × ((resolve_with texts none pooled (some object)).0 ≡ ok r)
unfolding resolve_with check_all before_pool start_draft check_interface check_udp fail_if fail
    attempt parse_udp_checksum check_prefix add_prefix is_masked valid6 valid_prefix_len any_rfc6052
    check_maps add_maps resolve_clat check_ipv4 classify4 check_ipv6 set_local6 derived_ipv6 embed
    derive is_well_known is_private4 add_own add_self is_invalid4 resolve_pool choose_pool add_pool
    is_reused is_link_local set_pool settle build sort_by insert_sorted place_all place place_static
    find_host any_duplicate4 check_pool pool_conflict place6 any_overlap put6 finish entries
    add_unseen is_seen sort_slice insert_by auto_of auto_all auto_routes add_route add_routes
    resolve_routes member masked dedupe_from parse_level parse_format parse_kinds parse_listen
reloaded = (_, refl)

-- Nothing is read or written, and every call succeeds.
abbrev environment : Environment ℕ
environment = record {
  texts = texts;
  fields = record {
    parse_addr = λ s. none;
    parse_int = λ s. none;
    is_comment = λ s. false;
    show_addr = λ a. "";
    show_int = λ n. "";
  };
  source_addr = none;
  update = λ old new w. (true, w + 1);
  write_file = λ path lines w. (true, w + 1);
  read_file = λ path w. none;
}

-- What it runs on, on an interface of another name.
abbrev current : Resolved
current = record reloaded.0 {
  config = record pooled { interface = record config.interface { name = "clat1"; mtu = 1500 } };
}

abbrev daemon : Daemon ℕ
daemon = record {
  cur = current;
  pool = some object;
  applied = netconf_options current "clat1";
  started = true;
  engine = some (current.xlate, current.table);
  level = current.log_level;
  kinds = current.packet_kinds;
  status = record {
    generation = 1;
    source = "startup";
    applied_at = 0;
    last_error = none;
    last_error_at = 0;
  };
  world = 0;
}

apply-Outcome_example :
    Outcome environment 100 "api" daemon
      (resolve_for environment pooled daemon).1
      (resolve_for environment pooled daemon).0
      (apply environment 100 pooled "api" daemon)
apply-Outcome_example = apply-Outcome environment 100 pooled "api" daemon

resolves : (resolve_for environment pooled daemon).0 ≡ ok reloaded.0
unfolding resolve_for
resolves = reloaded.1

same_pool : reloaded.0.pool ≡ existing_pool
unfolding reloaded
same_pool = refl

renamed : immutable_changes current reloaded.0 ≡ interface_name ∷ []
unfolding reloaded immutable_changes
renamed = refl

apply_refused-reserved_example :
    ((apply environment 100 pooled "api" daemon).0 ≡ some (immutable (interface_name ∷ [])))
    × ((q : PoolObject) × (((apply environment 100 pooled "api" daemon).1.pool ≡ some q)
          × (q.reserved ≡ some reloaded.0.table)))
apply_refused-reserved_example =
    apply_refused-reserved environment pooled daemon object 100 "api" reloaded.0 interface_name []
      refl resolves same_pool renamed
