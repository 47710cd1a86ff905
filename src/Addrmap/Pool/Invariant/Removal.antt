-- ===== src/Addrmap/Pool/Invariant/Removal.antt =====
-- An object that leaves a pool leaves the invariant.
use clatto.Base.{
  ℕ, ◌≡◌, refl, ap, sym, ◌∙◌, subst, arith, Bool, true, false, inl, inr, some, none, List, length,
}
use clatto.Netutil.{Addr6}
use clatto.Addrmap.Pool.{Pool, DynHost, find_off, delete_off, find6, delete6, is_used}
use clatto.Addrmap.Pool.Maps.{
  Distinct, Nat-cases, Addr6-cases, find_off-delete_off, find_off-delete_off_other, find6-delete6,
  find6-delete6_other, delete6-Distinct,
}
use clatto.Addrmap.Pool.Invariant.{IsPool, IsBacked, IsHeld, IsPlaced, side}
use clatto.Addrmap.Pool.Invariant.Steps.{IsShape-of, owned, addr_of-base}

-- The pool without a dormant object, and with any bitmap that has the other marks.
abbrev pub without : Pool → DynHost → List ℕ → Pool
without p d used = record p {
  dormant = delete6 d.addr6 p.dormant;
  by4 = delete_off d.off p.by4;
  used = used;
}

module _ (p : Pool) (d : DynHost) (used : List ℕ) (h : IsPool p)
    (found : find_off d.off p.by4 ≡ some d) (asleep : d.dormant ≡ true)
    (size : length used ≡ length p.used)
    (marks : (off : ℕ) → ¬ (d.off ≡ off) → is_used used off ≡ is_used p.used off)
    (cleared : is_used used d.off ≡ false) where
  -- The entries of the pool that results were there before, and are of other offsets.
  pub without-entry :
      (b : Bool) (a : Addr6) (off : ℕ)
      → find6 a (side (without p d used) b) ≡ some off
      → (¬ (off ≡ d.off)) × (find6 a (side p b) ≡ some off)
  without-entry true a off l = elim (Addr6-cases d.addr6 a) [
    | inl e ↦
        let gone : find6 a (delete6 d.addr6 p.dormant) ≡ none =
          subst (λ k. find6 k (delete6 d.addr6 p.dormant) ≡ none) e
            (find6-delete6 d.addr6 p.dormant) in
        absurd (ground (arith, gone, l))
    | inr n ↦
        let old = sym (find6-delete6_other d.addr6 a p.dormant n) ∙ l in
        elim (owned p d.off d true a off h found old) [
          | inl (e, (k, s)) ↦ absurd (n (sym k))
          | inr k ↦ k
        ]
  ]
  without-entry false a off l = elim (owned p d.off d false a off h found l) [
    | inl (e, (k, s)) ↦ absurd (ground (arith, s, asleep))
    | inr k ↦ k
  ]

  without-kept :
      (b : Bool) (a : Addr6) (off : ℕ)
      → ¬ (off ≡ d.off)
      → find6 a (side p b) ≡ some off
      → find6 a (side (without p d used) b) ≡ some off
  without-kept true a off n l = elim (Addr6-cases d.addr6 a) [
    | inl e ↦
        let at : find6 a p.dormant ≡ some d.off =
          subst (λ k. find6 k p.dormant ≡ some d.off) e
            (subst (λ b. find6 d.addr6 (side p b) ≡ some d.off) asleep
              (h.placed d.off d found).listed) in
        absurd (n (ground (arith, at, l)))
    | inr m ↦ find6-delete6_other d.addr6 a p.dormant m ∙ l
  ]
  without-kept false a off n l = l

  without-Distinct : (b : Bool) → Distinct (side (without p d used) b)
  without-Distinct true = delete6-Distinct d.addr6 p.dormant (h.distinct true)
  without-Distinct false = h.distinct false

  without-IsHeld :
      (b : Bool) (a : Addr6) (off : ℕ)
      → find6 a (side (without p d used) b) ≡ some off
      → IsHeld (delete_off d.off p.by4) a off b
  without-IsHeld b a off l =
      let old = without-entry b a off l in
      let k = h.held b a off old.1 in
      record {
        host = k.host;
        found = find_off-delete_off_other d.off off p.by4 (λ e. old.0 (sym e)) ∙ k.found;
        of_host = k.of_host;
        state = k.state;
      }

  without-IsPlaced :
      (off : ℕ) (o : DynHost)
      → find_off off (delete_off d.off p.by4) ≡ some o
      → IsPlaced (without p d used) off o
  without-IsPlaced off o f = elim (Nat-cases d.off off) [
    | inl e ↦
        let gone : find_off off (delete_off d.off p.by4) ≡ none =
          subst (λ k. find_off k (delete_off d.off p.by4) ≡ none) e
            (find_off-delete_off d.off p.by4) in
        absurd (ground (arith, gone, f))
    | inr n ↦
        let k = h.placed off o (sym (find_off-delete_off_other d.off off p.by4 n) ∙ f) in
        record {
          address = k.address ∙ addr_of-base p (without p d used) off refl;
          nonzero = k.nonzero;
          inside = k.inside;
          marked = marks off n ∙ k.marked;
          listed = without-kept o.dormant o.addr6 off (λ e. n (sym e)) k.listed;
        }
  ]

  without-IsBacked : (off : ℕ) → is_used used off ≡ true → IsBacked (delete_off d.off p.by4) off
  without-IsBacked off m = elim (Nat-cases d.off off) [
    | inl e ↦
        let free : is_used used off ≡ false = ap (is_used used) (sym e) ∙ cleared in
        absurd (ground (arith, free, m))
    | inr n ↦ elim (h.backed off (sym (marks off n) ∙ m)) [
      | inl e ↦ inl e
      | inr (o, f) ↦ inr (o, find_off-delete_off_other d.off off p.by4 n ∙ f)
    ]
  ]

  pub without-IsPool : IsPool (without p d used)
  without-IsPool = record {
    width = h.width;
    shape = IsShape-of p (without p d used) h.width refl refl refl size h.shape;
    distinct = without-Distinct;
    held = without-IsHeld;
    single = λ b c a off other l m.
        h.single b c a off other (without-entry b a off l).1 (without-entry c a other m).1;
    placed = without-IsPlaced;
    first = marks 0 (h.placed d.off d found).nonzero ∙ h.first;
    backed = without-IsBacked;
  }
