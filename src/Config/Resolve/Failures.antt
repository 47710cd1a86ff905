-- ===== src/Config/Resolve/Failures.antt =====
-- What `ResolveWith` does to the pool of the running configuration, also where it fails.
use clatto.Base.{
  ◌≡◌, refl, sym, ◌∙◌, ap, subst, arith, Bool-cases, true, inl, inr, Option, some, none,
  Result-cases, ok, err,
}
use clatto.Netip.{is_valid_prefix}
use clatto.Addrmap.Build.{Table, build}
use clatto.Addrmap.Pool.{Pool}
use clatto.Config.{Config, Resolved, DynamicPool, PoolObject, pool_of, reserved_of, existing_pool}
use clatto.Config.Words.{Texts}
use clatto.Config.Draft.{Draft, has_errors, start_draft}
use clatto.Config.SharedAddress.{SourceAddrType}
use clatto.Config.Pools.{is_reused, add_pool, reset_leases, resolve_pool}
use clatto.Config.Logging.{LogError, parse_level}
use clatto.Config.Resolve.{
  ResolveError, before_pool, check_all, finish, settle, after_resolve, changed_pool, reserved_after,
  resolve_with,
}
use clatto.Config.Resolve.Existing.{
  PoolFate, still, check_all-PoolFate, existing-some, existing-none, resolve_pool-some,
  choose_pool_reused,
}
use clatto.Config.Resolve.BuiltTable.{
  TableFate, errors, unbuilt, built_apart, reserved_after-TableFate,
}
use clatto.Config.Resolve.Limits.{add_pool-Extends}

-- What becomes of the existing pool, and of the table that it asks for reserved addresses.
pub record Fate (cfg : Config) (d : Draft) (o q : Option PoolObject) : Type 0 where
  pub pool : PoolFate cfg.dynamic_pool (pool_of o) (pool_of q) d.pool
  pub table : TableFate d (reserved_of o) (reserved_of q)

after_resolve-some :
    (d : Draft) (x : PoolObject) (q : Pool)
    → d.existing ≡ some q
    → after_resolve d (some x) ≡ some (record { pool = q; reserved = reserved_after d x.reserved })
after_resolve-some d x q e = ap (λ y. some (changed_pool d x y)) e

after_resolve-existing :
    (cfg : Config) (d : Draft) (o : Option PoolObject)
    → PoolFate cfg.dynamic_pool (pool_of o) d.existing d.pool
    → pool_of (after_resolve d o) ≡ d.existing
after_resolve-existing cfg d none h = sym (existing-none cfg.dynamic_pool d.existing d.pool h).0
after_resolve-existing cfg d (some x) h =
    let (q, e) = existing-some cfg.dynamic_pool x.pool d.existing d.pool h in
    ap pool_of (after_resolve-some d x q e) ∙ sym e

none-TableFate : (d : Draft) → ¬ (d.pool ≡ existing_pool) → TableFate d none none
none-TableFate d n = elim (Bool-cases (has_errors d)) [
  | inl k ↦ errors k refl
  | inr k ↦ elim (Result-cases (build d.builder)) [
    | inr (e, b) ↦ unbuilt e k b refl
    | inl (table, b) ↦ built_apart table k b n refl
  ]
]

after_resolve-TableFate :
    (cfg : Config) (d : Draft) (o : Option PoolObject)
    → PoolFate cfg.dynamic_pool (pool_of o) d.existing d.pool
    → TableFate d (reserved_of o) (reserved_of (after_resolve d o))
after_resolve-TableFate cfg d none h =
    none-TableFate d (existing-none cfg.dynamic_pool d.existing d.pool h).1
after_resolve-TableFate cfg d (some x) h =
    let (q, e) = existing-some cfg.dynamic_pool x.pool d.existing d.pool h in
    subst (TableFate d x.reserved) (sym (ap reserved_of (after_resolve-some d x q e)))
      (reserved_after-TableFate d x.reserved)

module _ (t : Texts) (source : SourceAddrType) (cfg : Config) (o : Option PoolObject) where
  -- Whatever ResolveWith returns, the existing pool is left as it was, where no dynamic pool with a
  -- valid prefix is configured on its prefix, and where one is, it has only got the lease times of
  -- that, and is the chosen pool. It asks the table that it did which addresses are reserved, where
  -- the checks have found an error, the table cannot be built or the pool is not the chosen one, and
  -- otherwise the new table.
  pub resolve_with-Fate :
      Fate cfg (check_all t source cfg (pool_of o)) o (resolve_with t source cfg o).1
  unfolding resolve_with
  resolve_with-Fate =
      let d = check_all t source cfg (pool_of o) in
      let f = check_all-PoolFate t source cfg o in
      record {
        pool =
            subst (λ q. PoolFate cfg.dynamic_pool (pool_of o) q d.pool)
              (sym (after_resolve-existing cfg d o f)) f;
        table = after_resolve-TableFate cfg d o f;
      }

  finish_level :
      (d : Draft) (table : Table) (r : Resolved) (e : LogError)
      → parse_level t cfg.log.level ≡ err e
      → ¬ (finish t cfg d table ≡ ok r)
  unfolding finish
  finish_level d table r e l h = ground (arith, l, h)

  settle_level :
      (d : Draft) (e : LogError)
      → parse_level t cfg.log.level ≡ err e
      → (x : ResolveError) × (settle t cfg d ≡ err x)
  unfolding settle
  settle_level d e l = elim (Result-cases (settle t cfg d)) [
    | inr k ↦ k
    | inl (r, k) ↦ elim (Bool-cases (has_errors d)) [
      | inl q ↦ absurd (ground (arith, q, k))
      | inr q ↦ elim (Result-cases (build d.builder)) [
        | inl (table, b) ↦ absurd (finish_level d table r e l (rw b at (rw q at k)))
        | inr (x, b) ↦ absurd (ground (arith, q, b, k))
      ]
    ]
  ]

  -- A configuration with a log level that is none, and with a dynamic pool on the prefix of the
  -- existing one, is refused, and yet has set the lease times of the existing pool.
  pub resolve_with_refused :
      (dp : DynamicPool) (e : LogError)
      → cfg.dynamic_pool ≡ some dp
      → is_valid_prefix dp.prefix ≡ true
      → is_reused (pool_of o) dp.prefix ≡ true
      → parse_level t cfg.log.level ≡ err e
      → ((x : ResolveError) × ((resolve_with t source cfg o).0 ≡ err x))
        × (pool_of (resolve_with t source cfg o).1 ≡ reset_leases dp (pool_of o))
  unfolding resolve_with check_all
  resolve_with_refused dp e c v u l =
      let d = before_pool t source cfg (start_draft cfg (pool_of o)) in
      let u' : is_reused d.existing dp.prefix ≡ true =
        ap (λ q. is_reused q dp.prefix) (still t source cfg o).0 ∙ u in
      let h =
        (add_pool-Extends t dp existing_pool
          (record d { existing = reset_leases dp d.existing })).0 in
      let same : resolve_pool t cfg d
          ≡ add_pool t dp existing_pool (record d { existing = reset_leases dp d.existing }) =
        resolve_pool-some t cfg d dp c ∙ choose_pool_reused t d dp v u' in
      (
        settle_level (resolve_pool t cfg d) e l,
        after_resolve-existing cfg (check_all t source cfg (pool_of o)) o
              (check_all-PoolFate t source cfg o)
            ∙ ap (λ x. x.existing) same
            ∙ h.same_existing
            ∙ ap (reset_leases dp) (still t source cfg o).0,
      )
