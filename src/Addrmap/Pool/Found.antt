-- ===== src/Addrmap/Pool/Found.antt =====
-- What the lookups of a pool find after one another.
use clatto.Base.{
  ℕ, ◌≡◌, refl, ap, sym, ◌∙◌, subst, arith, Bool, true, false, inl, inr, Option, Option-cases, some,
  none, bit_and,
}
use clatto.Netutil.{Addr4, Addr6}
use clatto.Netip.{num4}
use clatto.Xlate.Events.{Reason}
use clatto.Addrmap.Pool.{
  Pool, DynHost, pool_lookup4, deref, find6, find_off, insert6, touch, activate, tell_pool,
}
use clatto.Addrmap.Pool.Assign.{pool_lookup6, assign, assign_new}
use clatto.Addrmap.Pool.Maps.{find_off-update_off, find6-insert6}
use clatto.Addrmap.Pool.Leases.{IsLeased, assign_new-IsLeased}
use clatto.Addrmap.Pool.Invariant.{IsPool, side}
use clatto.Addrmap.Pool.Invariant.Addresses.{offset-addr_of}
use clatto.Addrmap.Pool.Invariant.Operations.{deref-find6, lookup4_touch, pool_lookup6-IsPool}

touch-IsLeased :
    (p : Pool) (now : ℕ) (a : Addr6) (d : DynHost)
    → IsPool p
    → deref p (find6 a p.mapped) ≡ some d
    → IsLeased (touch p d now) a d.addr4
touch-IsLeased p now a d h k =
    let (found, (host, state)) = deref-find6 p a false d h k in
    let o = record d { last_use = now } in
    record {
      off = d.off;
      host = o;
      mapped =
          ap (λ x. find6 x p.mapped) (sym host)
          ∙ ap (λ b. find6 d.addr6 (side p b)) (sym state)
          ∙ (h.placed d.off d found).listed;
      found = find_off-update_off p.by4 o d d.off refl found;
      of_host = host;
      address = refl;
      active = state;
    }

reactivate-IsLeased :
    (p : Pool) (now : ℕ) (a : Addr6) (d : DynHost)
    → find_off d.off p.by4 ≡ some d
    → d.addr6 ≡ a
    → IsLeased (tell_pool (activate p d now) Reason.dynamic_reactivated d) a d.addr4
unfolding activate
reactivate-IsLeased p now a d found host =
    let o = record d { dormant = false; last_use = now } in
    record {
      off = d.off;
      host = o;
      mapped =
          ap (λ x. find6 x (insert6 d.addr6 d.off p.mapped)) (sym host)
          ∙ find6-insert6 d.addr6 d.off p.mapped;
      found = find_off-update_off p.by4 o d d.off refl found;
      of_host = host;
      address = refl;
      active = refl;
    }

IsLeased-eq :
    (r : Option Addr4 × Pool) (q : Pool) (a : Addr6) (b c : Addr4)
    → r ≡ (some c, q)
    → IsLeased q a c
    → r.0 ≡ some b
    → IsLeased r.1 a b
IsLeased-eq r q a b c e l h =
    let same : c ≡ b = ground (arith, e, h) in
    subst (λ x. IsLeased x a b) (sym (ap (λ x. x.1) e)) (subst (IsLeased q a) same l)

module _ (reserved : Addr4 → Bool) (p : Pool) (now : ℕ) (a : Addr6) where
  pub lookup6_mapped :
      (allocate : Bool) (d : DynHost)
      → deref p (find6 a p.mapped) ≡ some d
      → pool_lookup6 reserved p now a allocate ≡ (some d.addr4, touch p d now)
  unfolding pool_lookup6
  lookup6_mapped allocate d k = rw (pool_lookup6, k) refl

  lookup6_refused :
      deref p (find6 a p.mapped) ≡ none → pool_lookup6 reserved p now a false ≡ (none, p)
  unfolding pool_lookup6
  lookup6_refused k = rw (pool_lookup6, k) refl

  pub lookup6_dormant :
      (d : DynHost)
      → deref p (find6 a p.mapped) ≡ none
      → deref p (find6 a p.dormant) ≡ some d
      → pool_lookup6 reserved p now a true
        ≡ (some d.addr4, tell_pool (activate p d now) Reason.dynamic_reactivated d)
  unfolding pool_lookup6 assign
  lookup6_dormant d k l = rw (pool_lookup6, k) (rw (assign, k) (rw l refl))

  pub lookup6_new :
      deref p (find6 a p.mapped) ≡ none
      → deref p (find6 a p.dormant) ≡ none
      → pool_lookup6 reserved p now a true ≡ assign_new reserved p now a
  unfolding pool_lookup6 assign
  lookup6_new k l = rw (pool_lookup6, k) (rw (assign, k) (rw l refl))

  pub pool_lookup6-IsLeased :
      (allocate : Bool) (b : Addr4)
      → IsPool p
      → (pool_lookup6 reserved p now a allocate).0 ≡ some b
      → IsLeased (pool_lookup6 reserved p now a allocate).1 a b
  pool_lookup6-IsLeased allocate b h e = elim (Option-cases (deref p (find6 a p.mapped))) [
    | inr (d, k) ↦
        IsLeased-eq _ (touch p d now) a b d.addr4 (lookup6_mapped allocate d k)
          (touch-IsLeased p now a d h k) e
    | inl k ↦ without_entry allocate b h e k
  ]
    where
      without_entry :
          (allocate : Bool) (b : Addr4)
          → IsPool p
          → (pool_lookup6 reserved p now a allocate).0 ≡ some b
          → deref p (find6 a p.mapped) ≡ none
          → IsLeased (pool_lookup6 reserved p now a allocate).1 a b
      without_entry false b h e k = absurd (ground (arith, e, lookup6_refused k))
      without_entry true b h e k = elim (Option-cases (deref p (find6 a p.dormant))) [
        | inr (d, l) ↦
            let (found, (host, _)) = deref-find6 p a true d h l in
            IsLeased-eq _ (tell_pool (activate p d now) Reason.dynamic_reactivated d) a b d.addr4
              (lookup6_dormant d k l) (reactivate-IsLeased p now a d found host) e
        | inl l ↦
            let same = lookup6_new k l in
            subst (λ r. IsLeased r.1 a b) (sym same)
              (assign_new-IsLeased reserved p now a b (sym (ap (λ r. r.0) same) ∙ e))
      ]

-- A leased address leads back to its host.
pub pool_lookup4-IsLeased :
    (p : Pool) (now : ℕ) (a : Addr6) (b : Addr4)
    → IsPool p
    → IsLeased p a b
    → (pool_lookup4 p now b).0 ≡ some a
pool_lookup4-IsLeased p now a b h l =
    let k = h.placed l.off l.host l.found in
    let offset : bit_and (num4 b) p.max ≡ l.off =
      ap (λ x. bit_and (num4 x) p.max) (sym l.address ∙ k.address)
      ∙ offset-addr_of p h.width l.off h.shape k.inside in
    let found : find_off (bit_and (num4 b) p.max) p.by4 ≡ some l.host =
      ap (λ i. find_off i p.by4) offset ∙ l.found in
    ap (λ r. r.0) (lookup4_touch p now b l.host found l.active) ∙ ap some l.of_host

-- In a pool with the invariant, the IPv4 address that a host gets from lookup6, be it mapped,
-- reactivated, new or taken from a dormant host, leads the next lookup4 back to the host, at any
-- time.
pub pool_lookup4-pool_lookup6 :
    (reserved : Addr4 → Bool) (p : Pool) (now later : ℕ) (a : Addr6) (allocate : Bool) (b : Addr4)
    → IsPool p
    → (pool_lookup6 reserved p now a allocate).0 ≡ some b
    → (pool_lookup4 (pool_lookup6 reserved p now a allocate).1 later b).0 ≡ some a
pool_lookup4-pool_lookup6 reserved p now later a allocate b h e =
    pool_lookup4-IsLeased (pool_lookup6 reserved p now a allocate).1 later a b
      (pool_lookup6-IsPool reserved p now a allocate h)
      (pool_lookup6-IsLeased reserved p now a allocate b h e)

touched_back :
    (p : Pool) (now : ℕ) (a : Addr6) (d : DynHost)
    → IsPool p
    → deref p (find6 a p.mapped) ≡ some d
    → (pool_lookup4 p now d.addr4).0 ≡ some a
touched_back p now a d h k =
    let (found, (host, state)) = deref-find6 p a false d h k in
    pool_lookup4-IsLeased p now a d.addr4 h record {
      off = d.off;
      host = d;
      mapped =
          ap (λ x. find6 x p.mapped) (sym host)
          ∙ ap (λ b. find6 d.addr6 (side p b)) (sym state)
          ∙ (h.placed d.off d found).listed;
      found = found;
      of_host = host;
      address = refl;
      active = state;
    }

mapped_back :
    (reserved : Addr4 → Bool) (p : Pool) (now : ℕ) (a : Addr6) (b : Addr4)
    → IsPool p
    → (pool_lookup6 reserved p now a false).0 ≡ some b
    → (pool_lookup4 p now b).0 ≡ some a
mapped_back reserved p now a b h e = elim (Option-cases (deref p (find6 a p.mapped))) [
  | inl k ↦ absurd (ground (arith, e, lookup6_refused reserved p now a k))
  | inr (d, k) ↦
      let same : d.addr4 ≡ b = ground (arith, e, lookup6_mapped reserved p now a false d k) in
      subst (λ x. (pool_lookup4 p now x).0 ≡ some a) same (touched_back p now a d h k)
]

-- In a pool with the invariant, two hosts that lookup6 finds the same IPv4 address for, with nothing
-- to allocate, are one host.
pub pool_lookup6_apart :
    (reserved : Addr4 → Bool) (p : Pool) (now : ℕ) (a other : Addr6) (b : Addr4)
    → IsPool p
    → (pool_lookup6 reserved p now a false).0 ≡ some b
    → (pool_lookup6 reserved p now other false).0 ≡ some b
    → a ≡ other
pool_lookup6_apart reserved p now a other b h e e' =
    let back = mapped_back reserved p now a b h e in
    let back' = mapped_back reserved p now other b h e' in ground (arith, back, back')
