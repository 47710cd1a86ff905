-- ===== src/Config/Resolve/Limits.antt =====
-- A configuration that `ResolveWith` accepts has MTUs in range.
use clatto.Base.{
  ◌≡◌, ◌≤◌, refl, ◌∙◌, arith, ltb, if◌then◌else◌, Bool, Bool-cases, true, false, not, ◌||◌, inl,
  inr, Option, none, some, Result, Result-cases, ok, err,
}
use clatto.Netip.{is_valid_prefix}
use clatto.Addrmap.Build.{Table, build}
use clatto.Addrmap.Pool.{Pool, PoolError}
use clatto.Xlate.V4.Train.{IsConfig}
use clatto.Config.{Config, Resolved, DynamicPool, PoolObject, pool_of, PoolChoice, existing_pool}
use clatto.Config.Words.{Texts}
use clatto.Config.Draft
use clatto.Config.Draft.{
  Draft, ConfigError, fail, fail_if, warn, attempt, has_errors, start_draft, check_udp,
  check_interface, is_link_local,
}
use clatto.Config.SharedAddress.{SourceAddrType}
use clatto.Config.Pools.{is_reused, add_pool, reset_leases, add_new_pool, choose_pool, resolve_pool}
use clatto.Config.Progress.{
  Grows, Extends, Grows-Extends, Keeps, Grows-refl, Grows-trans, fail-Grows, fail-has_errors,
  fail_if-Grows, if-Grows, warn-Grows, attempt-Grows,
}
use clatto.Config.Steps.{check_udp-Grows, check_interface-Grows, before_pool-Grows}
use clatto.Config.Resolve.{before_pool, check_all, finish, settle, resolve_with}

-- What is kept by the check of the pool, which may change the existing one.
record Survives (d d' : Draft) : Type 0 where
  same_mtu : d'.mtu ≡ d.mtu
  same_offlink : d'.offlink_mtu ≡ d.offlink_mtu
  keeps : Keeps d d'

Extends-Survives : {d d' : Draft} → Extends d d' → Survives d d'
Extends-Survives h = record {
  same_mtu = h.same_mtu;
  same_offlink = h.same_offlink;
  keeps = h.keeps;
}

Grows-Survives : {d d' : Draft} → Grows d d' → Survives d d'
Grows-Survives h = Extends-Survives (Grows-Extends h)

Survives-if :
    {d x y : Draft} (b : Bool) → Survives d x → Survives d y → Survives d (if b then x else y)
Survives-if true h k = h
Survives-if false h k = k

pub add_pool-Extends :
    (t : Texts) (dp : DynamicPool) (choice : PoolChoice) (d : Draft)
    → Extends d (add_pool t dp choice d) × ((add_pool t dp choice d).pool ≡ choice)
unfolding add_pool
add_pool-Extends t dp choice d =
    let first =
      Grows-trans (if-Grows (is_link_local dp.prefix.addr) (warn-Grows _ d) (Grows-refl d))
        (fail_if-Grows _ _ _) in
    let last = attempt-Grows Draft.second_pool _ _ in
    (
      record {
        same_mtu = last.same_mtu ∙ first.same_mtu;
        same_offlink = last.same_offlink ∙ first.same_offlink;
        same_existing = last.same_existing ∙ first.same_existing;
        keeps = λ h. last.keeps (first.keeps h);
      },
      last.same_pool,
    )

pub add_new_pool-Extends :
    (t : Texts) (dp : DynamicPool) (r : Result PoolError Pool) (d : Draft)
    → Extends d (add_new_pool t dp r d)
add_new_pool-Extends t dp (err e) d = Grows-Extends (fail-Grows _ d)
add_new_pool-Extends t dp (ok p) d = (add_pool-Extends t dp _ d).0

resolve_pool-Survives : (t : Texts) (cfg : Config) (d : Draft) → Survives d (resolve_pool t cfg d)
unfolding resolve_pool choose_pool
resolve_pool-Survives t cfg d = with_pool cfg.dynamic_pool
  where
    with_pool :
        (o : Option DynamicPool) → Survives d (elim o [ none ↦ d | some dp ↦ choose_pool t dp d ])
    with_pool none = Grows-Survives (Grows-refl d)
    with_pool (some dp) =
        let e = record d { existing = reset_leases dp d.existing } in
        let h = (add_pool-Extends t dp existing_pool e).0 in
        Survives-if (not (is_valid_prefix dp.prefix))
          (Grows-Survives (fail-Grows Draft.no_pool_prefix d))
          (Survives-if (is_reused d.existing dp.prefix)
            (record { same_mtu = h.same_mtu; same_offlink = h.same_offlink; keeps = h.keeps })
            (Extends-Survives (add_new_pool-Extends t dp _ d)))

-- The MTUs that the first check lets through.
record IsChecked (d : Draft) : Type 0 where
  mtu_low : 1280 ≤ d.mtu
  mtu_high : d.mtu ≤ 65535
  offlink_low : 1280 ≤ d.offlink_mtu

-- No error after a step, no error before it.
silent : (d d' : Draft) → Keeps d d' → has_errors d' ≡ false → has_errors d ≡ false
silent d d' keeps h = elim (Bool-cases (has_errors d)) [
  | inl k ↦ absurd (ground (arith, keeps k, h))
  | inr k ↦ k
]

passed : (b : Bool) (e : ConfigError) (d : Draft) → has_errors (fail_if b e d) ≡ false → b ≡ false
unfolding fail_if
passed true e d h = absurd (ground (arith, fail-has_errors e d, h))
passed false e d h = refl

check_interface-IsChecked :
    (t : Texts) (cfg : Config) (d : Draft)
    → has_errors (check_interface t cfg d) ≡ false
    → IsChecked d
unfolding check_interface
check_interface-IsChecked t cfg d h =
    let b1 = ltb 15 (t.byte_length d.name) in
    let b2 = ltb d.mtu 1280 || ltb 65535 d.mtu in
    let b3 = ltb d.offlink_mtu 1280 in
    let d1 = fail_if b1 Draft.long_name d in
    let d2 = fail_if b2 Draft.bad_mtu d1 in
    let d3 = fail_if b3 Draft.bad_offlink_mtu d2 in
    let h3 : has_errors d3 ≡ false =
      silent d3 (check_udp t cfg d3) (check_udp-Grows t cfg d3).keeps h in
    let h2 : has_errors d2 ≡ false =
      silent d2 d3 (fail_if-Grows b3 Draft.bad_offlink_mtu d2).keeps h3 in
    let low = passed b3 Draft.bad_offlink_mtu d2 h3 in
    let range = passed b2 Draft.bad_mtu d1 h2 in ground (arith, low, range)

-- What `ResolveWith` has checked when it returns a configuration.
record IsAccepted (t : Texts) (cfg : Config) (d : Draft) (r : Resolved) : Type 0 where
  no_errors : has_errors d ≡ false
  built : build d.builder ≡ ok r.table
  same_mtu : r.xlate.mtu ≡ d.mtu
  same_offlink : r.xlate.offlink_mtu ≡ d.offlink_mtu

finish-IsAccepted :
    (t : Texts) (cfg : Config) (d : Draft) (table : Table) (r : Resolved)
    → has_errors d ≡ false
    → build d.builder ≡ ok table
    → finish t cfg d table ≡ ok r
    → IsAccepted t cfg d r
unfolding finish
finish-IsAccepted t cfg d table r h b e = ground arith

settle-IsAccepted :
    (t : Texts) (cfg : Config) (d : Draft) (r : Resolved)
    → settle t cfg d ≡ ok r
    → IsAccepted t cfg d r
unfolding settle
settle-IsAccepted t cfg d r e = elim (Bool-cases (has_errors d)) [
  | inl k ↦ absurd (ground (arith, rw k at e))
  | inr k ↦ elim (Result-cases (build d.builder)) [
    | inl (table, b) ↦ finish-IsAccepted t cfg d table r k b (rw b at (rw k at e))
    | inr (x, b) ↦ absurd (ground (arith, k, b, e))
  ]
]

-- A configuration that ResolveWith accepts, with any environment and existing pool, has an interface
-- MTU between 1280 and 65535 and an offlink MTU of at least 1280.
pub resolve_with-limits :
    (t : Texts) (source : SourceAddrType) (cfg : Config) (existing : Option PoolObject)
    (r : Resolved)
    → (resolve_with t source cfg existing).0 ≡ ok r
    → IsConfig r.xlate × (r.xlate.mtu ≤ 65535)
unfolding resolve_with check_all before_pool
resolve_with-limits t source cfg existing r e =
    let d0 = start_draft cfg (pool_of existing) in
    let d1 = check_interface t cfg d0 in
    let d2 = before_pool t source cfg d0 in
    let d3 = resolve_pool t cfg d2 in
    let a = settle-IsAccepted t cfg d3 r e in
    let first = check_interface-Grows t cfg d0 in
    let middle = before_pool-Grows t source cfg d0 in
    let last = resolve_pool-Survives t cfg d2 in
    let h2 = silent d2 d3 last.keeps a.no_errors in
    let c = check_interface-IsChecked t cfg d0 (silent d1 d2 middle.keeps h2) in
    let mtu : r.xlate.mtu ≡ d0.mtu =
      a.same_mtu ∙ last.same_mtu ∙ middle.same_mtu ∙ first.same_mtu in
    let offlink : r.xlate.offlink_mtu ≡ d0.offlink_mtu =
      a.same_offlink ∙ last.same_offlink ∙ middle.same_offlink ∙ first.same_offlink in
    ground (arith, mtu, offlink, c.mtu_low, c.mtu_high, c.offlink_low)
