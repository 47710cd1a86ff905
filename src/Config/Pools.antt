-- ===== src/Config/Pools.antt =====
-- The dynamic pool of `ResolveWith`: the pool of the running configuration is kept, with its leases
-- set, where the prefix is the same.
use clatto.Base.{if◌then◌else◌, Bool, false, not, ◌&&◌, Option, none, some, Result, ok, err}
use clatto.Netip.{Prefix, eq_prefix, is_valid_prefix}
use clatto.Addrmap.Entry.{set_pool}
use clatto.Addrmap.Pool
use clatto.Addrmap.Pool.{PoolError}
use clatto.Addrmap.Pool.Reports.{set_leases}
use clatto.Config.{Config, DynamicPool, PoolChoice, existing_pool, new_pool, link_local_pool}
use clatto.Config.Words.{Texts, ◌===◌}
use clatto.Config.Draft.{
  Draft, fail, fail_if, warn, attempt, is_link_local, no_pool_prefix, state_file_relative, bad_pool,
  second_pool,
}

-- Whether the existing pool is reused.
unfoldable pub is_reused : Option Pool.Pool → Prefix → Bool
is_reused none p = false
is_reused (some q) p = eq_prefix q.prefix p

-- From the check for a link-local prefix on, with the pool that was chosen.
unfoldable pub add_pool : Texts → DynamicPool → PoolChoice → Draft → Draft
add_pool t dp choice d =
    let d1 = if is_link_local dp.prefix.addr then warn link_local_pool d else d in
    let d2 =
      fail_if (not (dp.state_file === "") && not (t.is_abs dp.state_file)) state_file_relative d1 in
    attempt second_pool (set_pool d2.builder dp.prefix) (record d2 { pool = choice })

abbrev pub reset_leases : DynamicPool → Option Pool.Pool → Option Pool.Pool
reset_leases dp none = none
reset_leases dp (some q) = some (set_leases q dp.min_lease dp.max_lease)

abbrev pub add_new_pool : Texts → DynamicPool → Result PoolError Pool.Pool → Draft → Draft
add_new_pool t dp (err e) d = fail (bad_pool e) d
add_new_pool t dp (ok p) d = add_pool t dp (new_pool p) d

unfoldable pub choose_pool : Texts → DynamicPool → Draft → Draft
choose_pool t dp d =
    if not (is_valid_prefix dp.prefix)
    then fail no_pool_prefix d
    else if is_reused d.existing dp.prefix
    then add_pool t dp existing_pool (record d { existing = reset_leases dp d.existing })
    else add_new_pool t dp (Pool.new_pool dp.prefix dp.min_lease dp.max_lease) d

unfoldable pub resolve_pool : Texts → Config → Draft → Draft
resolve_pool t cfg d = elim cfg.dynamic_pool [ none ↦ d | some dp ↦ choose_pool t dp d ]
