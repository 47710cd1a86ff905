-- ===== src/Addrmap/Pool/Invariant/Operations.antt =====
-- Every operation of a pool keeps its invariant.
use clatto.Base.{
  ℕ, zero, suc, ◌≡◌, ◌+◌, ◌-◌, ◌^◌, ◌≤◌, refl, ap, sym, ◌∙◌, subst, arith, Bool, true, false,
  Bool-cases, inl, inr, Option, some, none, Option-cases, List, [], ◌∷◌, bit_and, bit_and_mask, u32,
}
use native.Mathlib.Nat.{one-le-pow}
use clatto.Netutil.{Addr4, Addr6}
use clatto.Netip.{num4}
use clatto.Xlate.Events.{Event, Reason}
use clatto.Addrmap.Pool.{
  Pool, DynHost, find_off, find6, deref, pool_lookup4, activate, tell_pool, touch,
}
use clatto.Addrmap.Pool.Assign.{
  scan_free, hash6, oldest_of, older, assign_new, assign, pool_lookup6, exhausted,
}
use clatto.Addrmap.Pool.Scan.{scan_free-IsFree}
use clatto.Addrmap.Pool.Leases.{
  oldest_of-find_off, older-cases, assign_new-free, assign_new-dormant, assign_new-none,
}
use clatto.Addrmap.Pool.Maps.{Distinct, tail_entry, head_entry, tail_Distinct, find_off-off}
use clatto.Addrmap.Pool.Invariant.{IsPool, IsShape, side}
use clatto.Addrmap.Pool.Invariant.Steps.{touch-IsPool, IsShape-of, addr_of-base}
use clatto.Addrmap.Pool.Invariant.Hosts.{
  IsNew, IsNew-of, reactivate-IsPool, take_free-IsPool, steal-IsPool,
}

-- The lease times, the mark for the state file and the observer's log are not part of the invariant.
pub relabel-IsPool :
    (p : Pool) (min max : ℕ) (dirty : Bool) (log : List Event)
    → IsPool p
    → IsPool (record p { min_lease = min; max_lease = max; dirty = dirty; log = log })
relabel-IsPool p min max dirty log h =
    let q = record p { min_lease = min; max_lease = max; dirty = dirty; log = log } in
    record {
      width = h.width;
      shape = IsShape-of p q h.width refl refl refl refl h.shape;
      distinct = h.distinct;
      held = h.held;
      single = h.single;
      placed = λ off d f.
          let k = h.placed off d f in
          record {
            address = k.address ∙ addr_of-base p q off refl;
            nonzero = k.nonzero;
            inside = k.inside;
            marked = k.marked;
            listed = k.listed;
          };
      first = h.first;
      backed = h.backed;
    }

-- An object that a lookup finds stands at its own offset.
pub at_own :
    (p : Pool) (off : ℕ) (d : DynHost) → find_off off p.by4 ≡ some d → find_off d.off p.by4 ≡ some d
at_own p off d f = subst (λ i. find_off i p.by4 ≡ some d) (sym (find_off-off off p.by4 d f)) f

pub lookup4_touch :
    (p : Pool) (now : ℕ) (a : Addr4) (d : DynHost)
    → find_off (bit_and (num4 a) p.max) p.by4 ≡ some d
    → d.dormant ≡ false
    → pool_lookup4 p now a ≡ (some d.addr6, touch p d now)
unfolding pool_lookup4
lookup4_touch p now a d k s = ground (arith, k, s)

pub pool_lookup4-IsPool :
    (p : Pool) (now : ℕ) (a : Addr4) → IsPool p → IsPool (pool_lookup4 p now a).1
unfolding pool_lookup4
pool_lookup4-IsPool p now a h = elim (Option-cases (find_off (bit_and (num4 a) p.max) p.by4)) [
  | inl k ↦ rw (pool_lookup4, k) h
  | inr (d, k) ↦ elim (Bool-cases d.dormant) [
    | inl s ↦ rw (pool_lookup4, k) (rw s h)
    | inr s ↦ rw (lookup4_touch p now a d k s) (touch-IsPool p d now h (at_own p _ d k))
  ]
]

-- What the two steps of a lookup by IPv6 address find: an offset, and the object there.
pub deref-find6 :
    (p : Pool) (a : Addr6) (b : Bool) (d : DynHost)
    → IsPool p
    → deref p (find6 a (side p b)) ≡ some d
    → (find_off d.off p.by4 ≡ some d) × ((d.addr6 ≡ a) × (d.dormant ≡ b))
unfolding deref
deref-find6 p a b d h k = elim (Option-cases (find6 a (side p b))) [
  | inl q ↦ absurd (ground (arith, rw q at k))
  | inr (off, q) ↦
      let found : find_off off p.by4 ≡ some d = rw q at k in
      let held = h.held b a off q in
      let same : held.host ≡ d = ground (arith, held.found, found) in
      (
        at_own p off d found,
        (sym (ap (λ x. x.addr6) same) ∙ held.of_host, sym (ap (λ x. x.dormant) same) ∙ held.state),
      )
]

pub deref-none :
    (p : Pool) (a : Addr6) (b : Bool)
    → IsPool p
    → deref p (find6 a (side p b)) ≡ none
    → find6 a (side p b) ≡ none
unfolding deref
deref-none p a b h k = elim (Option-cases (find6 a (side p b))) [
  | inl q ↦ q
  | inr (off, q) ↦ let held = h.held b a off q in absurd (ground (arith, held.found, rw q at k))
]

mask_bound : (width x : ℕ) → bit_and x (2 ^ width - 1) ≤ 2 ^ width - 1
mask_bound width x = omega (arith, bit_and_mask width x, one-le-pow width 2)

scan_free-inside :
    (reserved : Addr4 → Bool) (p : Pool) (width h left i off : ℕ)
    → IsShape p width
    → scan_free reserved p h left i ≡ some off
    → off ≤ p.max
unfolding scan_free
scan_free-inside reserved p width h zero i off s e = ground arith
scan_free-inside reserved p width h (suc left) i off s e =
    let low : bit_and (u32 (h + i)) p.max ≤ p.max = rw s.mask (mask_bound width (u32 (h + i))) in
    ground (arith, low, scan_free-inside reserved p width h left (i + 1) off s)

-- The least recently used of a list of dormant hosts is dormant.
oldest_of-dormant :
    (p : Pool) (m : List (Addr6 × ℕ)) (best : Option DynHost) (d : DynHost)
    → IsPool p
    → Distinct m
    → ((a : Addr6) (off : ℕ) → find6 a m ≡ some off → find6 a p.dormant ≡ some off)
    → ((o : DynHost) → best ≡ some o → o.dormant ≡ true)
    → oldest_of p m best ≡ some d
    → d.dormant ≡ true
unfolding oldest_of
oldest_of-dormant p [] best d h q all known e = known d e
oldest_of-dormant p ((a, off) ∷ m) best d h q all known e =
    let held = h.held true a off (all a off (head_entry a off m)) in
    oldest_of-dormant p m (older (find_off off p.by4) best) d h (tail_Distinct a off m q)
      (λ b other l. all b other (tail_entry a b off other m q l).1)
      (λ o k. elim (older-cases held.host o best (rw held.found at k)) [
        | inl same ↦ ground (arith, same, held.state)
        | inr k ↦ known o k
      ])
      e

assign_new-IsPool :
    (reserved : Addr4 → Bool) (p : Pool) (now : ℕ) (a : Addr6)
    → IsPool p
    → IsNew p a
    → IsPool (assign_new reserved p now a).1
assign_new-IsPool reserved p now a h new =
    elim (Option-cases (scan_free reserved p (hash6 p a) (p.max + 1) 0)) [
      | inr (off, k) ↦
          let free = scan_free-IsFree reserved p (hash6 p a) (p.max + 1) 0 off k in
          let inside =
            scan_free-inside reserved p h.width (hash6 p a) (p.max + 1) 0 off h.shape k in
          rw (assign_new-free reserved p now a off k) (
            take_free-IsPool p h now a off (λ e. ground (arith, free.nonzero, e)) inside free.unused
              new)
      | inl k ↦ elim (Option-cases (oldest_of p p.dormant none)) [
        | inr (d, l) ↦ rw (assign_new-dormant reserved p now a d k l) (
            steal-IsPool p h now a d (oldest_of-find_off p p.dormant none d (λ o q. ground arith) l)
              (oldest_of-dormant p p.dormant none d h (h.distinct true) (λ b off q. q)
                (λ o q. ground arith) l)
              new)
        | inl l ↦
            rw (assign_new-none reserved p now a k l)
              (relabel-IsPool p p.min_lease p.max_lease p.dirty (exhausted p a).1.log h)
      ]
    ]

-- The pool that `lookup6` leaves keeps the invariant, whatever it does for the host.
pub pool_lookup6-IsPool :
    (reserved : Addr4 → Bool) (p : Pool) (now : ℕ) (a : Addr6) (allocate : Bool)
    → IsPool p
    → IsPool (pool_lookup6 reserved p now a allocate).1
unfolding pool_lookup6 assign
pool_lookup6-IsPool reserved p now a allocate h = elim (Option-cases (deref p (find6 a p.mapped))) [
  | inr (d, k) ↦
      let (found, _) = deref-find6 p a false d h k in
      rw (pool_lookup6, k) (touch-IsPool p d now h found)
  | inl k ↦ elim (Bool-cases allocate) [
    | inl q ↦ elim (Option-cases (deref p (find6 a p.dormant))) [
      | inr (d, l) ↦
          let (found, _) = deref-find6 p a true d h l in
          let r = activate p d now in
          rw (pool_lookup6, k)
            (rw q (
              rw (assign, k)
                (rw l (
                  relabel-IsPool r r.min_lease r.max_lease r.dirty
                    (tell_pool r Reason.dynamic_reactivated d).log
                    (reactivate-IsPool p d now h found)))))
      | inl l ↦
          rw (pool_lookup6, k)
            (rw q (
              rw (assign, k)
                (rw l (
                  assign_new-IsPool reserved p now a h
                    (IsNew-of p a (deref-none p a false h k) (deref-none p a true h l))))))
    ]
    | inr q ↦ rw (pool_lookup6, k) (rw q h)
  ]
]
