-- ===== src/Config/Resolve/BuiltTable.antt =====
-- What `Build`, in `ResolveWith`, does to the reserved addresses of the existing pool.
use clatto.Base.{
  ◌≡◌, ◌⊎◌, refl, ◌∙◌, arith, Bool-cases, true, false, inl, inr, Option, some, Result-cases, ok,
  err,
}
use clatto.Addrmap.Build.{Table, BuildError, build}
use clatto.Config.{PoolChoice, no_pool, existing_pool, new_pool}
use clatto.Config.Draft.{Draft, has_errors}
use clatto.Config.Resolve.{reserved_after, table_for}

-- What becomes of the table that it asks for reserved addresses: that is the table built of the draft,
-- where the draft has no errors, the table can be built and the existing pool is the chosen one.
pub data TableFate (d : Draft) (old new : Option Table) : Type 0 where
  errors : has_errors d ≡ true → new ≡ old → TableFate d old new
  unbuilt :
      (e : BuildError)
      → has_errors d ≡ false
      → build d.builder ≡ err e
      → new ≡ old
      → TableFate d old new
  built_apart :
      (table : Table)
      → has_errors d ≡ false
      → build d.builder ≡ ok table
      → ¬ (d.pool ≡ existing_pool)
      → new ≡ old
      → TableFate d old new
  built :
      (table : Table)
      → has_errors d ≡ false
      → build d.builder ≡ ok table
      → d.pool ≡ existing_pool
      → new ≡ some table
      → TableFate d old new

-- The three ways of `Build` with the existing pool.
reserved_after_errors :
    (d : Draft) (old : Option Table) → has_errors d ≡ true → reserved_after d old ≡ old
unfolding reserved_after
reserved_after_errors d old k = rw (reserved_after, k) refl

pub reserved_after_built :
    (d : Draft) (old : Option Table) (table : Table)
    → has_errors d ≡ false
    → build d.builder ≡ ok table
    → reserved_after d old ≡ table_for d.pool table old
unfolding reserved_after
reserved_after_built d old table k b = rw (reserved_after, k) (rw b refl)

reserved_after_unbuilt :
    (d : Draft) (old : Option Table) (e : BuildError)
    → has_errors d ≡ false
    → build d.builder ≡ err e
    → reserved_after d old ≡ old
unfolding reserved_after
reserved_after_unbuilt d old e k b = rw (reserved_after, k) (rw b refl)

pub reserved_after-TableFate :
    (d : Draft) (old : Option Table) → TableFate d old (reserved_after d old)
reserved_after-TableFate d old = elim (Bool-cases (has_errors d)) [
  | inl k ↦ errors k (reserved_after_errors d old k)
  | inr k ↦ elim (Result-cases (build d.builder)) [
    | inr (e, b) ↦ unbuilt e k b (reserved_after_unbuilt d old e k b)
    | inl (table, b) ↦
        let new = reserved_after_built d old table k b in
        elim (table_for-cases d.pool table old) [
          | inl (n, q) ↦ built_apart table k b n (new ∙ q)
          | inr (c, q) ↦ built table k b c (new ∙ q)
        ]
  ]
]
  where
    table_for-cases :
        (c : PoolChoice) (table : Table) (old : Option Table)
        → ((¬ (c ≡ existing_pool)) × (table_for c table old ≡ old))
          ⊎ ((c ≡ existing_pool) × (table_for c table old ≡ some table))
    table_for-cases no_pool table old = inl (λ h. ground (arith, h), refl)
    table_for-cases existing_pool table old = inr (refl, refl)
    table_for-cases (new_pool p) table old = inl (λ h. ground (arith, h), refl)
