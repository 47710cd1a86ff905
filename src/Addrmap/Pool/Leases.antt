-- ===== src/Addrmap/Pool/Leases.antt =====
-- An assignment of `assign` is what later lookups find.
use clatto.Base.{
  ℕ, ◌+◌, ltb, subst, ◌≡◌, ==_refl, ap, sym, arith, refl, ◌∙◌, Bool, false, Bool-cases,
  Option-cases, inl, inr, ◌⊎◌, Option, some, none, List, [], ◌∷◌,
}
use clatto.Netutil.{Addr4, Addr6}
use clatto.Addrmap.Pool.{
  Pool, DynHost, find_off, delete_off, find6, delete6, deref, set_used, activate, addr_of,
}
use clatto.Addrmap.Pool.Assign.{
  oldest_of, older, take_free, steal, assign_new, scan_free, pool_lookup6, hash6, exhausted,
}
use clatto.Addrmap.Pool.Maps.{find6-insert6, find_off-off, find_off-update_off}
use clatto.Addrmap.Pool.Scan.{IsFree, scan_free-IsFree}

pub older-cases :
    (d o : DynHost) (best : Option DynHost)
    → older (some d) best ≡ some o
    → (some d ≡ some o) ⊎ (best ≡ some o)
unfolding older
older-cases d o none h = inl h
older-cases d o (some b) h = elim (Bool-cases (ltb d.last_use b.last_use)) [
  | inl k ↦ inl (rw k at h)
  | inr k ↦ inr (rw k at h)
]

older-known :
    (p : Pool) (off : ℕ) (best : Option DynHost)
    → ((o : DynHost) → best ≡ some o → find_off o.off p.by4 ≡ some o)
    → (o : DynHost) → older (find_off off p.by4) best ≡ some o
    → find_off o.off p.by4 ≡ some o
unfolding older
older-known p off best known o h = elim (Option-cases (find_off off p.by4)) [
  | inl k ↦ known o (rw k at h)
  | inr (d, k) ↦
      let h' : older (some d) best ≡ some o = rw k at h in
      elim (older-cases d o best h') [
        | inl q ↦
            let same : d ≡ o = ground arith in
            let own = find_off-off off p.by4 d k in
            subst (λ x. find_off x.off p.by4 ≡ some x) same
              (subst (λ i. find_off i p.by4 ≡ some d) (sym own) k)
        | inr q ↦ known o q
      ]
]

find_off-here : (d : DynHost) (l : List DynHost) → find_off d.off (d ∷ l) ≡ some d
unfolding find_off
find_off-here d l = rw (==_refl d.off) refl

-- The least recently used dormant assignment is one of the pool's objects.
pub oldest_of-find_off :
    (p : Pool) (m : List (Addr6 × ℕ)) (best : Option DynHost) (d : DynHost)
    → ((o : DynHost) → best ≡ some o → find_off o.off p.by4 ≡ some o)
    → oldest_of p m best ≡ some d
    → find_off d.off p.by4 ≡ some d
unfolding oldest_of
oldest_of-find_off p [] best d known h = known d h
oldest_of-find_off p ((a, off) ∷ m) best d known h =
    oldest_of-find_off p m _ d (older-known p off best known) h

pub pool_lookup6-found :
    (reserved : Addr4 → Bool) (p : Pool) (a : Addr6) (off now : ℕ) (allocate : Bool) (d : DynHost)
    → find6 a p.mapped ≡ some off
    → find_off off p.by4 ≡ some d
    → (pool_lookup6 reserved p now a allocate).0 ≡ some d.addr4
unfolding pool_lookup6 deref
pool_lookup6-found reserved p a off now allocate d m f =
    let q : deref p (find6 a p.mapped) ≡ some d = rw m f in rw (pool_lookup6, q) refl

activate-mapped :
    (p : Pool) (d : DynHost) (now : ℕ) → find6 d.addr6 (activate p d now).mapped ≡ some d.off
unfolding activate
activate-mapped p d now = find6-insert6 d.addr6 d.off p.mapped

activate-by4 :
    (p : Pool) (d o : DynHost) (now : ℕ)
    → find_off d.off p.by4 ≡ some o
    → find_off d.off (activate p d now).by4 ≡ some (record d { dormant = false; last_use = now })
unfolding activate
activate-by4 p d o now h =
    find_off-update_off p.by4 (record d { dormant = false; last_use = now }) o d.off refl h

-- A host and its address, found by both lookups of a pool.
pub record IsLeased (p : Pool) (a : Addr6) (b : Addr4) : Type 0 where
  pub off : ℕ
  pub host : DynHost
  pub mapped : find6 a p.mapped ≡ some off
  pub found : find_off off p.by4 ≡ some host
  pub of_host : host.addr6 ≡ a
  pub address : host.addr4 ≡ b
  pub active : host.dormant ≡ false

take_free-IsLeased :
    (p : Pool) (now : ℕ) (a : Addr6) (off : ℕ)
    → IsLeased (take_free p now a off).1 a (take_free p now a off).0
unfolding take_free
take_free-IsLeased p now a off =
    let d : DynHost = record {
      addr4 = addr_of p off;
      addr6 = a;
      off = off;
      last_use = 0;
      dormant = false;
    } in
    let q : Pool = record p { used = set_used p.used off; by4 = d ∷ delete_off off p.by4 } in
    record {
      off = off;
      host = record d { dormant = false; last_use = now };
      mapped = activate-mapped q d now;
      found = activate-by4 q d d now (find_off-here d (delete_off off p.by4));
      of_host = refl;
      address = refl;
      active = refl;
    }

steal-IsLeased :
    (p : Pool) (now : ℕ) (a : Addr6) (d : DynHost)
    → find_off d.off p.by4 ≡ some d
    → IsLeased (steal p now a d).1 a (steal p now a d).0
unfolding steal
steal-IsLeased p now a d h =
    let o = record d { addr6 = a } in
    let q : Pool = record p { dormant = delete6 d.addr6 p.dormant } in
    record {
      off = d.off;
      host = record o { dormant = false; last_use = now };
      mapped = activate-mapped q o now;
      found = activate-by4 q o d now h;
      of_host = refl;
      address = refl;
      active = refl;
    }

pub assign_new-free :
    (reserved : Addr4 → Bool) (p : Pool) (now : ℕ) (a : Addr6) (off : ℕ)
    → scan_free reserved p (hash6 p a) (p.max + 1) 0 ≡ some off
    → assign_new reserved p now a ≡ (some (take_free p now a off).0, (take_free p now a off).1)
unfolding assign_new take_free
assign_new-free reserved p now a off k = rw (assign_new, k) refl

pub assign_new-dormant :
    (reserved : Addr4 → Bool) (p : Pool) (now : ℕ) (a : Addr6) (d : DynHost)
    → scan_free reserved p (hash6 p a) (p.max + 1) 0 ≡ none
    → oldest_of p p.dormant none ≡ some d
    → assign_new reserved p now a ≡ (some (steal p now a d).0, (steal p now a d).1)
unfolding assign_new steal
assign_new-dormant reserved p now a d k l = rw (assign_new, k) (rw l refl)

pub assign_new-none :
    (reserved : Addr4 → Bool) (p : Pool) (now : ℕ) (a : Addr6)
    → scan_free reserved p (hash6 p a) (p.max + 1) 0 ≡ none
    → oldest_of p p.dormant none ≡ none
    → assign_new reserved p now a ≡ exhausted p a
unfolding assign_new
assign_new-none reserved p now a k l = rw (assign_new, k) (rw l refl)

IsLeased-of :
    (r : Option Addr4 × Pool) (s : Addr4 × Pool) (a : Addr6) (b : Addr4)
    → r ≡ (some s.0, s.1)
    → IsLeased s.1 a s.0
    → r.0 ≡ some b
    → IsLeased r.1 a b
IsLeased-of r s a b q l h =
    let same : s.0 ≡ b = ground arith in
    let pool : s.1 ≡ r.1 = sym (ap (λ x. x.1) q) in
    subst (λ p. IsLeased p a b) pool (subst (IsLeased s.1 a) same l)

-- An address that the scan, or the reuse of a dormant assignment, gives a host is leased to the host
-- in the pool that results.
pub assign_new-IsLeased :
    (reserved : Addr4 → Bool) (p : Pool) (now : ℕ) (a : Addr6) (b : Addr4)
    → (assign_new reserved p now a).0 ≡ some b
    → IsLeased (assign_new reserved p now a).1 a b
assign_new-IsLeased reserved p now a b h =
    elim (Option-cases (scan_free reserved p (hash6 p a) (p.max + 1) 0)) [
      | inr (off, k) ↦
          IsLeased-of _ (take_free p now a off) a b (assign_new-free reserved p now a off k)
            (take_free-IsLeased p now a off) h
      | inl k ↦ elim (Option-cases (oldest_of p p.dormant none)) [
        | inr (d, l) ↦
            IsLeased-of _ (steal p now a d) a b (assign_new-dormant reserved p now a d k l)
              (steal-IsLeased p now a d
                (oldest_of-find_off p p.dormant none d (λ o q. ground arith) l))
              h
        | inl l ↦ let q : none ≡ some b = rw (assign_new-none reserved p now a k l) at h in cc
      ]
    ]

-- A host that `assign` gives an address by the scan or by reuse of a dormant assignment has the same
-- address at its next lookup, at any time, whether or not that lookup may allocate.
pub pool_lookup6-assign_new :
    (reserved : Addr4 → Bool) (p : Pool) (now later : ℕ) (a : Addr6) (b : Addr4) (allocate : Bool)
    → (assign_new reserved p now a).0 ≡ some b
    → (pool_lookup6 reserved (assign_new reserved p now a).1 later a allocate).0 ≡ some b
pool_lookup6-assign_new reserved p now later a b allocate h =
    let l = assign_new-IsLeased reserved p now a b h in
    pool_lookup6-found reserved (assign_new reserved p now a).1 a l.off later allocate l.host
      l.mapped l.found
    ∙ ap some l.address

take_free-addr_of :
    (p : Pool) (now : ℕ) (a : Addr6) (off : ℕ) → (take_free p now a off).0 ≡ addr_of p off
unfolding take_free
take_free-addr_of p now a off = refl

steal-addr4 : (p : Pool) (now : ℕ) (a : Addr6) (d : DynHost) → (steal p now a d).0 ≡ d.addr4
unfolding steal
steal-addr4 p now a d = refl

-- An address that the scan, or the reuse of a dormant assignment, gives a host is either that of an
-- offset that was free, not zero and not reserved, or that of an assignment that the pool had.
pub assign_new-IsFree :
    (reserved : Addr4 → Bool) (p : Pool) (now : ℕ) (a : Addr6) (b : Addr4)
    → (assign_new reserved p now a).0 ≡ some b
    → ((off : ℕ) × (IsFree reserved p off × (b ≡ addr_of p off)))
      ⊎ ((d : DynHost) × ((find_off d.off p.by4 ≡ some d) × (b ≡ d.addr4)))
assign_new-IsFree reserved p now a b h =
    elim (Option-cases (scan_free reserved p (hash6 p a) (p.max + 1) 0)) [
      | inr (off, k) ↦ inl (
        off,
        (
          scan_free-IsFree reserved p (hash6 p a) (p.max + 1) 0 off k,
          ground (arith, take_free-addr_of p now a off, assign_new-free reserved p now a off k),
        ),
      )
      | inl k ↦ elim (Option-cases (oldest_of p p.dormant none)) [
        | inr (d, l) ↦ inr (
          d,
          (
            oldest_of-find_off p p.dormant none d (λ o q. ground arith) l,
            ground (arith, steal-addr4 p now a d, assign_new-dormant reserved p now a d k l),
          ),
        )
        | inl l ↦ let q : none ≡ some b = rw (assign_new-none reserved p now a k l) at h in cc
      ]
    ]
