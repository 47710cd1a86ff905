-- ===== src/Config/Resolve/Existing.antt =====
-- What the draft of `ResolveWith` does to the pool of the running configuration.
use clatto.Base.{
  ◌≡◌, refl, sym, ◌∙◌, ap, subst, arith, Bool, Bool-cases, ◌&&◌, true, false, inl, inr, Result,
  Option, some, none, ok, err,
}
use clatto.Netip.{is_valid_prefix}
use clatto.Addrmap.Pool.Reports.{set_leases}
use clatto.Addrmap.Pool
use clatto.Addrmap.Pool.{Pool, PoolError}
use clatto.Config.{
  Config, DynamicPool, PoolObject, pool_of, PoolChoice, no_pool, existing_pool, new_pool,
}
use clatto.Config.Words.{Texts}
use clatto.Config.Draft
use clatto.Config.Draft.{Draft, has_errors, fail, start_draft, check_interface}
use clatto.Config.SharedAddress.{SourceAddrType}
use clatto.Config.Pools.{is_reused, add_pool, add_new_pool, reset_leases, choose_pool, resolve_pool}
use clatto.Config.Progress.{fail-Grows}
use clatto.Config.Steps.{check_interface-Grows, before_pool-Grows}
use clatto.Config.Resolve.{before_pool, check_all}
use clatto.Config.Resolve.Limits.{add_pool-Extends, add_new_pool-Extends}

-- Whether a dynamic pool is on the prefix of the existing pool.
abbrev pub reuses : Option DynamicPool → Option Pool → Bool
reuses none p = false
reuses (some dp) p = is_valid_prefix dp.prefix && is_reused p dp.prefix

-- What becomes of an existing pool, and whether the draft has chosen it: without a configured pool on
-- its prefix it is left alone, and otherwise gets the lease times of that.
pub data PoolFate (o : Option DynamicPool) (p q : Option Pool) (c : PoolChoice) : Type 0 where
  not_reused : reuses o p ≡ false → q ≡ p → ¬ (c ≡ existing_pool) → PoolFate o p q c
  reused :
      (dp : DynamicPool)
      → o ≡ some dp
      → reuses o p ≡ true
      → q ≡ reset_leases dp p
      → c ≡ existing_pool
      → PoolFate o p q c

add_new_pool-apart :
    (t : Texts) (dp : DynamicPool) (r : Result PoolError Pool) (d : Draft)
    → d.pool ≡ no_pool
    → ¬ ((add_new_pool t dp r d).pool ≡ existing_pool)
add_new_pool-apart t dp (err e) d n h =
    ground (arith, (fail-Grows (Draft.bad_pool e) d).same_pool, n, h)
add_new_pool-apart t dp (ok p) d n h = ground (arith, (add_pool-Extends t dp (new_pool p) d).1, h)

pub resolve_pool-some :
    (t : Texts) (cfg : Config) (d : Draft) (dp : DynamicPool)
    → cfg.dynamic_pool ≡ some dp
    → resolve_pool t cfg d ≡ choose_pool t dp d
unfolding resolve_pool
resolve_pool-some t cfg d dp k = rw (resolve_pool, k) refl

pub choose_pool_reused :
    (t : Texts) (d : Draft) (dp : DynamicPool)
    → is_valid_prefix dp.prefix ≡ true
    → is_reused d.existing dp.prefix ≡ true
    → choose_pool t dp d
      ≡ add_pool t dp existing_pool (record d { existing = reset_leases dp d.existing })
unfolding choose_pool
choose_pool_reused t d dp v u = rw (choose_pool, v) (rw u refl)

choose_pool_invalid :
    (t : Texts) (d : Draft) (dp : DynamicPool)
    → is_valid_prefix dp.prefix ≡ false
    → choose_pool t dp d ≡ fail Draft.no_pool_prefix d
unfolding choose_pool
choose_pool_invalid t d dp v = rw (choose_pool, v) refl

choose_pool_new :
    (t : Texts) (d : Draft) (dp : DynamicPool)
    → is_valid_prefix dp.prefix ≡ true
    → is_reused d.existing dp.prefix ≡ false
    → choose_pool t dp d ≡ add_new_pool t dp (Pool.new_pool dp.prefix dp.min_lease dp.max_lease) d
unfolding choose_pool
choose_pool_new t d dp v u = rw (choose_pool, v) (rw u refl)

choose_pool-PoolFate :
    (t : Texts) (dp : DynamicPool) (d : Draft)
    → d.pool ≡ no_pool
    → PoolFate (some dp) d.existing (choose_pool t dp d).existing (choose_pool t dp d).pool
choose_pool-PoolFate t dp d n = elim (Bool-cases (is_valid_prefix dp.prefix)) [
  | inr v ↦
      let same = choose_pool_invalid t d dp v in
      let g = fail-Grows Draft.no_pool_prefix d in
      not_reused (ground (arith, v)) (ap (λ x. x.existing) same ∙ g.same_existing)
        (λ h. ground (arith, ap (λ x. x.pool) same, g.same_pool, n, h))
  | inl v ↦ elim (Bool-cases (is_reused d.existing dp.prefix)) [
    | inl u ↦
        let same = choose_pool_reused t d dp v u in
        let (g, chosen) =
          add_pool-Extends t dp existing_pool
            (record d { existing = reset_leases dp d.existing }) in
        reused dp refl (ground (arith, v, u)) (ap (λ x. x.existing) same ∙ g.same_existing)
          (ap (λ x. x.pool) same ∙ chosen)
    | inr u ↦
        let r = Pool.new_pool dp.prefix dp.min_lease dp.max_lease in
        let same = choose_pool_new t d dp v u in
        not_reused (ground (arith, v, u))
          (ap (λ x. x.existing) same ∙ (add_new_pool-Extends t dp r d).same_existing)
          (λ h. add_new_pool-apart t dp r d n (ap (λ x. x.pool) (sym same) ∙ h))
  ]
]

resolve_pool-PoolFate :
    (t : Texts) (cfg : Config) (d : Draft)
    → d.pool ≡ no_pool
    → let q = resolve_pool t cfg d in PoolFate cfg.dynamic_pool d.existing q.existing q.pool
unfolding resolve_pool
resolve_pool-PoolFate t cfg d n = by_pool cfg.dynamic_pool
  where
    by_pool :
        (o : Option DynamicPool)
        → let q = elim o as (λ x. Draft) [ none ↦ d | some dp ↦ choose_pool t dp d ] in
          PoolFate o d.existing q.existing q.pool
    by_pool none = not_reused refl refl (λ h. ground (arith, n, h))
    by_pool (some dp) = choose_pool-PoolFate t dp d n

module _ (t : Texts) (source : SourceAddrType) (cfg : Config) (o : Option PoolObject) where
  -- The checks before the pool's leave the existing pool and the choice alone.
  pub still :
      let d = before_pool t source cfg (start_draft cfg (pool_of o)) in
      (d.existing ≡ pool_of o) × (d.pool ≡ no_pool)
  unfolding start_draft
  still =
      let d = start_draft cfg (pool_of o) in
      let first = check_interface-Grows t cfg d in
      let last = before_pool-Grows t source cfg d in
      (last.same_existing ∙ first.same_existing, last.same_pool ∙ first.same_pool)

  pub check_all-PoolFate :
      let q = check_all t source cfg (pool_of o) in
      PoolFate cfg.dynamic_pool (pool_of o) q.existing q.pool
  unfolding check_all
  check_all-PoolFate =
      let d = before_pool t source cfg (start_draft cfg (pool_of o)) in
      let q = resolve_pool t cfg d in
      subst (λ p. PoolFate cfg.dynamic_pool p q.existing q.pool) still.0
        (resolve_pool-PoolFate t cfg d still.1)

-- There is an existing pool after the checks where there was one.
pub existing-some :
    (o : Option DynamicPool) (p : Pool) (q : Option Pool) (c : PoolChoice)
    → PoolFate o (some p) q c
    → (x : Pool) × (q ≡ some x)
existing-some o p q c (not_reused _ e _) = (p, e)
existing-some o p q c (reused dp _ _ e _) = (set_leases p dp.min_lease dp.max_lease, e)

pub existing-none :
    (o : Option DynamicPool) (q : Option Pool) (c : PoolChoice)
    → PoolFate o none q c
    → (q ≡ none) × (¬ (c ≡ existing_pool))
unfolding is_reused
existing-none o q c (not_reused _ e n) = (e, n)
existing-none o q c (reused dp s u e _) =
    let v : reuses (some dp) none ≡ true = ap (λ x. reuses x none) (sym s) ∙ u in
    absurd (ground (arith, v))
