-- ===== src/Addrmap/Pool/Maintain.antt =====
-- `Maintain` of internal/addrmap/pool.go.
use clatto.Base.{ℕ, ◌+◌, ltb, if◌then◌else◌, true, none, some, List, [], ◌∷◌}
use clatto.Netutil.{Addr6}
use clatto.Xlate.Events.{Reason}
use clatto.Addrmap.Pool.{
  Pool, clear_used, find_off, delete_off, update_off, delete6, insert6, tell_pool,
}

-- The first loop of `Maintain`: idle assignments become dormant.
unfoldable pub retire_host : ℕ → Pool → Addr6 → ℕ → Pool
retire_host now p a off = elim (find_off off p.by4) [
  | none ↦ p
  | some d ↦
      if ltb (d.last_use + p.min_lease) now
      then tell_pool
          (record p {
            mapped = delete6 a p.mapped;
            by4 = update_off (record d { dormant = true }) p.by4;
            dormant = insert6 a off p.dormant;
          })
          Reason.dynamic_dormant d
      else p
]

unfoldable pub retire : ℕ → Pool → List (Addr6 × ℕ) → Pool
retire now p [] = p
retire now p ((a, off) ∷ m) = retire now (retire_host now p a off) m

-- The second: old ones are released.
unfoldable pub release_host : ℕ → Pool → Addr6 → ℕ → Pool
release_host now p a off = elim (find_off off p.by4) [
  | none ↦ p
  | some d ↦
      if ltb (d.last_use + p.max_lease) now
      then tell_pool
          (record p {
            dormant = delete6 a p.dormant;
            by4 = delete_off off p.by4;
            used = clear_used p.used off;
            dirty = true;
          })
          Reason.dynamic_released d
      else p
]

unfoldable pub release : ℕ → Pool → List (Addr6 × ℕ) → Pool
release now p [] = p
release now p ((a, off) ∷ m) = release now (release_host now p a off) m

unfoldable pub maintain : ℕ → Pool → Pool
maintain now p = let q = retire now p p.mapped in release now q q.dormant
