-- ===== src/Daemon/Reserved.antt =====
-- What a refused configuration leaves in the running pool.
use Prim.Native.String.{String}
use clatto.Base.{
  ℕ, ◌≡◌, refl, sym, ◌∙◌, ap, arith, Bool-cases, inl, inr, Option, some, List, ◌∷◌, Result-cases,
  ok,
}
use clatto.Addrmap.Build.{Table, build}
use clatto.Config.{Config, Resolved, PoolObject, existing_pool}
use clatto.Config.Words.{Texts}
use clatto.Config.Draft.{Draft, has_errors}
use clatto.Config.SharedAddress.{SourceAddrType}
use clatto.Config.Resolve.{
  Setting, check_all, finish, settle, table_for, reserved_after, changed_pool, resolve_with,
  immutable_changes,
}
use clatto.Config.Resolve.Existing.{existing-some, check_all-PoolFate}
use clatto.Config.Resolve.BuiltTable.{reserved_after_built}
use clatto.Daemon.{Environment, Daemon, immutable, fail_locked, resolve_for, refuse, apply}
use clatto.Daemon.Kept.{resolve_for-Kept}

finish-table :
    (t : Texts) (cfg : Config) (d : Draft) (table : Table) (r : Resolved)
    → finish t cfg d table ≡ ok r
    → (r.table ≡ table) × (r.pool ≡ d.pool)
unfolding finish
finish-table t cfg d table r e = ground arith

-- The table of a resolved configuration is in the existing pool, if it has that pool.
reserved_after-table :
    (t : Texts) (cfg : Config) (d : Draft) (old : Option Table) (r : Resolved)
    → settle t cfg d ≡ ok r
    → r.pool ≡ existing_pool
    → reserved_after d old ≡ some r.table
unfolding settle
reserved_after-table t cfg d old r e c = elim (Bool-cases (has_errors d)) [
  | inl k ↦ absurd (ground (arith, rw k at e))
  | inr k ↦ elim (Result-cases (build d.builder)) [
    | inl (table, b) ↦
        let (same, pool) = finish-table t cfg d table r (rw b at (rw k at e)) in
        reserved_after_built d old table k b
        ∙ ap (λ x. table_for x table old) (sym pool ∙ c)
        ∙ ap some (sym same)
    | inr (x, b) ↦ absurd (ground (arith, k, b, e))
  ]
]

resolve_with-reserved :
    (t : Texts) (source : SourceAddrType) (cfg : Config) (o : PoolObject) (r : Resolved)
    → (resolve_with t source cfg (some o)).0 ≡ ok r
    → r.pool ≡ existing_pool
    → (q : PoolObject) × (((resolve_with t source cfg (some o)).1 ≡ some q)
        × (q.reserved ≡ some r.table))
unfolding resolve_with
resolve_with-reserved t source cfg o r e c =
    let d = check_all t source cfg (some o.pool) in
    let table = reserved_after-table t cfg d o.reserved r e c in
    let (p, f) =
      existing-some cfg.dynamic_pool o.pool d.existing d.pool
        (check_all-PoolFate t source cfg (some o)) in
    (changed_pool d o (some p), (ap (λ x. some (changed_pool d o x)) f, table))

module _ {W : Type 0} (env : Environment W) (cfg : Config) (d : Daemon W) (o : PoolObject) where
  resolve_for-reserved :
      (r : Resolved)
      → d.pool ≡ some o
      → (resolve_for env cfg d).0 ≡ ok r
      → r.pool ≡ existing_pool
      → (q : PoolObject) × (((resolve_for env cfg d).1.pool ≡ some q) × (q.reserved ≡ some r.table))
  unfolding resolve_for
  resolve_for-reserved r k e c =
      let t = env.texts in
      let source = env.source_addr in
      let e' : (resolve_with t source cfg (some o)).0 ≡ ok r =
        ap (λ x. (resolve_with t source cfg x).0) (sym k) ∙ e in
      let (q, (f, n)) = resolve_with-reserved t source cfg o r e' c in
      (q, (ap (λ x. (resolve_with t source cfg x).1) k ∙ f, n))

  -- A configuration that is on the pool that is running, but that changes a setting that cannot
  -- change, is refused, and yet the pool then asks the table of that configuration, and not its own,
  -- which addresses it must not hand out.
  pub apply_refused-reserved :
      (now : ℕ) (source : String) (r : Resolved) (s : Setting) (ss : List Setting)
      → d.pool ≡ some o
      → (resolve_for env cfg d).0 ≡ ok r
      → r.pool ≡ existing_pool
      → immutable_changes d.cur r ≡ s ∷ ss
      → ((apply env now cfg source d).0 ≡ some (immutable (s ∷ ss)))
        × ((q : PoolObject) × (((apply env now cfg source d).1.pool ≡ some q)
              × (q.reserved ≡ some r.table)))
  unfolding apply fail_locked
  apply_refused-reserved now source r s ss k e c m =
      let (q, (l, n)) = resolve_for-reserved r k e c in
      let changed : immutable_changes (resolve_for env cfg d).1.cur r ≡ s ∷ ss =
        ap (λ x. immutable_changes x r) (resolve_for-Kept env cfg d).cur ∙ m in
      let refused : apply env now cfg source d
          ≡ refuse now source (immutable (s ∷ ss)) (resolve_for env cfg d).1 =
        rw (apply, e) (rw changed refl) in
      (ap (λ x. x.0) refused, (q, (ap (λ x. x.1.pool) refused ∙ l, n)))
