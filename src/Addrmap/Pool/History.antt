-- ===== src/Addrmap/Pool/History.antt =====
-- The life of a pool: the operations that reach it, one after another under its mutex.
use clatto.Base.{ℕ, ◌≡◌, Bool, false, List, ok}
use clatto.Netutil.{Addr4, Addr6}
use clatto.Netip.{Prefix, v4}
use clatto.Addrmap.Pool.{Pool, new_pool, pool_lookup4}
use clatto.Addrmap.Pool.Assign.{pool_lookup6}
use clatto.Addrmap.Pool.Maintain.{maintain}
use clatto.Addrmap.Pool.Reports.{set_leases}
use clatto.Addrmap.Pool.StateFile.{Texts, read, save}
use clatto.Addrmap.Pool.StateFile.Reading.{IsParser, read-IsPool}
use clatto.Addrmap.Pool.Invariant.{IsPool}
use clatto.Addrmap.Pool.Invariant.Empty.{IsAddr4, new_pool-IsPool}
use clatto.Addrmap.Pool.Invariant.Operations.{
  relabel-IsPool, pool_lookup4-IsPool, pool_lookup6-IsPool,
}
use clatto.Addrmap.Pool.Invariant.Idle.{maintain-IsPool}

-- One operation on a pool; the table that says what is reserved may change between two of them.
pub data Step {T : Type 0} (t : Texts T) : Pool → Pool → Type 0 where
  looked_up4 : (p : Pool) (now : ℕ) (a : Addr4) → Step t p (pool_lookup4 p now a).1
  looked_up6 :
      (p : Pool) (reserved : Addr4 → Bool) (now : ℕ) (a : Addr6) (allocate : Bool)
      → Step t p (pool_lookup6 reserved p now a allocate).1
  maintained : (p : Pool) (now : ℕ) → Step t p (maintain now p)
  leases_set : (p : Pool) (min_lease max_lease : ℕ) → Step t p (set_leases p min_lease max_lease)
  saved : (p : Pool) → Step t p (save t p).1
  loaded :
      (p : Pool) (reserved : Addr4 → Bool) (now : ℕ) (lines : List (List T)) (failed : Bool)
      → Step t p (read t reserved now p lines failed).1

pub data Reach {T : Type 0} (t : Texts T) : Pool → Pool → Type 0 where
  start : (p : Pool) → Reach t p p
  then_step : (p q r : Pool) → Reach t p q → Step t q r → Reach t p r

set_leases-IsPool :
    (p : Pool) (min_lease max_lease : ℕ) → IsPool p → IsPool (set_leases p min_lease max_lease)
unfolding set_leases
set_leases-IsPool p min_lease max_lease h = relabel-IsPool p _ _ p.dirty p.log h

save-IsPool : {T : Type 0} (t : Texts T) (p : Pool) → IsPool p → IsPool (save t p).1
unfolding save
save-IsPool t p h = relabel-IsPool p p.min_lease p.max_lease false p.log h

Step-IsPool :
    {T : Type 0} (t : Texts T) → IsParser t → (p q : Pool) → Step t p q → IsPool p → IsPool q
Step-IsPool t parser _ _ (looked_up4 p now a) h = pool_lookup4-IsPool p now a h
Step-IsPool t parser _ _ (looked_up6 p reserved now a allocate) h =
    pool_lookup6-IsPool reserved p now a allocate h
Step-IsPool t parser _ _ (maintained p now) h = maintain-IsPool now p h
Step-IsPool t parser _ _ (leases_set p low high) h = set_leases-IsPool p low high h
Step-IsPool t parser _ _ (saved p) h = save-IsPool t p h
Step-IsPool t parser _ _ (loaded p reserved now lines failed) h =
    read-IsPool t parser reserved now p lines failed h

Reach-IsPool :
    {T : Type 0} (t : Texts T) → IsParser t → (p q : Pool) → Reach t p q → IsPool p → IsPool q
Reach-IsPool t parser _ _ (start p) h = h
Reach-IsPool t parser _ _ (then_step p q r before s) h =
    Step-IsPool t parser q r s (Reach-IsPool t parser p q before h)

-- Every pool that NewPool makes of an IPv4 prefix of bytes, and that any sequence of lookups, passes
-- of Maintain, changes of the lease times, saves and reads of state files leads to, has the
-- invariant, if the parser gives IPv4 addresses of bytes: its maps, objects and offsets agree, and the
-- bitmap marks offset 0 and the offsets of the objects, and no other.
pub Reach-new_pool :
    {T : Type 0} (t : Texts T) (parser : IsParser t) (n : Prefix) (net : Addr4) (low high : ℕ)
    (p q : Pool)
    → n.addr ≡ v4 net
    → IsAddr4 net
    → new_pool n low high ≡ ok p
    → Reach t p q
    → IsPool q
Reach-new_pool t parser n net low high p q e bytes made r =
    Reach-IsPool t parser p q r (new_pool-IsPool n low high net p e bytes made)
