-- ===== src/Addrmap/Pool/Invariant/Steps.antt =====
-- A step that gives one offset of a pool an object keeps the invariant, if the maps follow it.
use clatto.Base.{
  ℕ, ◌≡◌, ◌+◌, ◌/◌, refl, ap, sym, ◌∙◌, subst, arith, Bool, true, inl, inr, ◌⊎◌, some, length,
}
use clatto.Netutil.{Addr6}
use clatto.Addrmap.Pool.{Pool, DynHost, find_off, find6, touch, is_used, addr_of}
use clatto.Addrmap.Pool.Maps.{Distinct, Nat-cases, find_off-update_off, find_off-update_off_other}
use clatto.Addrmap.Pool.Invariant.{IsPool, IsBacked, IsHeld, IsPlaced, IsShape, side}

-- What is known of a map's entry once the object `o` is at `x`.
abbrev pub Owner : Pool → ℕ → DynHost → Bool → Addr6 → ℕ → Type 0
Owner p x o b a off =
    ((off ≡ x) × ((a ≡ o.addr6) × (b ≡ o.dormant)))
    ⊎ ((¬ (off ≡ x)) × (find6 a (side p b) ≡ some off))

-- The pool `q` is `p` but for the offset `x`, where it has `o`.
pub record IsChange (p q : Pool) (x : ℕ) (o : DynHost) : Type 0 where
  pub same_prefix : q.prefix ≡ p.prefix
  pub same_max : q.max ≡ p.max
  pub same_base : q.base ≡ p.base
  pub same_words : length q.used ≡ length p.used
  pub here : find_off x q.by4 ≡ some o
  pub others : (off : ℕ) → ¬ (x ≡ off) → find_off off q.by4 ≡ find_off off p.by4
  pub marks : (off : ℕ) → ¬ (x ≡ off) → is_used q.used off ≡ is_used p.used off
  pub distinct : (b : Bool) → Distinct (side q b)
  pub placed : IsPlaced q x o
  pub owner : (b : Bool) (a : Addr6) (off : ℕ) → find6 a (side q b) ≡ some off → Owner p x o b a off
  pub alone : (b : Bool) (off : ℕ) → find6 o.addr6 (side p b) ≡ some off → off ≡ x
  pub kept :
      (b : Bool) (a : Addr6) (off : ℕ)
      → ¬ (off ≡ x)
      → find6 a (side p b) ≡ some off
      → find6 a (side q b) ≡ some off

pub IsShape-of :
    (p q : Pool) (width : ℕ)
    → q.prefix ≡ p.prefix
    → q.max ≡ p.max
    → q.base ≡ p.base
    → length q.used ≡ length p.used
    → IsShape p width
    → IsShape q width
IsShape-of p q width e m b l s = record {
  net = s.net;
  of_net = ap (λ n. n.addr) e ∙ s.of_net;
  net_base = b ∙ s.net_base;
  below = ap (λ n. n.bits + width) e ∙ s.below;
  quotient = s.quotient;
  bound = s.bound;
  mask = m ∙ s.mask;
  masked = b ∙ s.masked;
  words = l ∙ s.words ∙ ap (λ n. (n + 64) / 64) (sym m);
}

pub addr_of-base : (p q : Pool) (off : ℕ) → q.base ≡ p.base → addr_of p off ≡ addr_of q off
unfolding addr_of
addr_of-base p q off h = rw h refl

change-IsHeld :
    (p q : Pool) (x : ℕ) (o : DynHost) (b : Bool) (a : Addr6) (off : ℕ)
    → IsPool p
    → IsChange p q x o
    → find6 a (side q b) ≡ some off
    → IsHeld q.by4 a off b
change-IsHeld p q x o b a off h c l = elim (c.owner b a off l) [
  | inl (e, (k, s)) ↦ record { host = o; found = rw e c.here; of_host = sym k; state = sym s }
  | inr (n, k) ↦
      let old = h.held b a off k in
      record {
        host = old.host;
        found = c.others off (λ e. n (sym e)) ∙ old.found;
        of_host = old.of_host;
        state = old.state;
      }
]

change-IsPlaced :
    (p q : Pool) (x : ℕ) (o : DynHost) (off : ℕ) (d : DynHost)
    → IsPool p
    → IsChange p q x o
    → find_off off q.by4 ≡ some d
    → IsPlaced q off d
change-IsPlaced p q x o off d h c f = elim (Nat-cases x off) [
  | inl e ↦
      let same : o ≡ d = ground (arith, c.here, e, f) in
      subst (λ i. IsPlaced q i d) e (subst (IsPlaced q x) same c.placed)
  | inr n ↦
      let old = h.placed off d (sym (c.others off n) ∙ f) in
      record {
        address = old.address ∙ addr_of-base p q off c.same_base;
        nonzero = old.nonzero;
        inside = rw c.same_max old.inside;
        marked = c.marks off n ∙ old.marked;
        listed = c.kept d.dormant d.addr6 off (λ e. n (sym e)) old.listed;
      }
]

change-single :
    (p q : Pool) (x : ℕ) (o : DynHost) (b c : Bool) (a : Addr6) (off other : ℕ)
    → IsPool p
    → IsChange p q x o
    → find6 a (side q b) ≡ some off
    → find6 a (side q c) ≡ some other
    → off ≡ other
change-single p q x o b c a off other h k l m =
    let old : (b : Bool) (off : ℕ) → a ≡ o.addr6 → find6 a (side p b) ≡ some off → off ≡ x =
      λ b off e l. k.alone b off (ap (λ t. find6 t (side p b)) (sym e) ∙ l) in
    elim (k.owner b a off l) [
      | inl (e, (own, _)) ↦ elim (k.owner c a other m) [
        | inl (e', _) ↦ e ∙ sym e'
        | inr (n, m') ↦ absurd (n (old c other own m'))
      ]
      | inr (n, l') ↦ elim (k.owner c a other m) [
        | inl (e', (own, _)) ↦ absurd (n (old b off own l'))
        | inr (n', m') ↦ h.single b c a off other l' m'
      ]
    ]

change-IsBacked :
    (p q : Pool) (x : ℕ) (o : DynHost) (off : ℕ)
    → IsPool p
    → IsChange p q x o
    → is_used q.used off ≡ true
    → IsBacked q.by4 off
change-IsBacked p q x o off h c m = elim (Nat-cases x off) [
  | inl e ↦ inr (o, ap (λ i. find_off i q.by4) (sym e) ∙ c.here)
  | inr n ↦ elim (h.backed off (sym (c.marks off n) ∙ m)) [
    | inl e ↦ inl e
    | inr (d, f) ↦ inr (d, c.others off n ∙ f)
  ]
]

pub change-IsPool : (p q : Pool) (x : ℕ) (o : DynHost) → IsPool p → IsChange p q x o → IsPool q
change-IsPool p q x o h c = record {
  width = h.width;
  shape = IsShape-of p q h.width c.same_prefix c.same_max c.same_base c.same_words h.shape;
  distinct = c.distinct;
  held = λ b a off. change-IsHeld p q x o b a off h c;
  single = λ b b' a off other. change-single p q x o b b' a off other h c;
  placed = λ off d. change-IsPlaced p q x o off d h c;
  first = c.marks 0 c.placed.nonzero ∙ h.first;
  backed = λ off m. change-IsBacked p q x o off h c m;
}

-- An entry of a map that leads to the offset of `d` is that of `d`.
pub owned :
    (p : Pool) (x : ℕ) (d : DynHost) (b : Bool) (a : Addr6) (off : ℕ)
    → IsPool p
    → find_off x p.by4 ≡ some d
    → find6 a (side p b) ≡ some off
    → Owner p x d b a off
owned p x d b a off h f l = elim (Nat-cases off x) [
  | inr n ↦ inr (n, l)
  | inl e ↦
      let k = h.held b a off l in
      let same : k.host ≡ d = ground (arith, k.found, e, f) in
      inl (e, (sym k.of_host ∙ ap (λ y. y.addr6) same, sym k.state ∙ ap (λ y. y.dormant) same))
]

touch-IsChange :
    (p : Pool) (d : DynHost) (now : ℕ)
    → IsPool p
    → find_off d.off p.by4 ≡ some d
    → IsChange p (touch p d now) d.off (record d { last_use = now })
touch-IsChange p d now h f =
    let o = record d { last_use = now } in
    let k = h.placed d.off d f in
    record {
      same_prefix = refl;
      same_max = refl;
      same_base = refl;
      same_words = refl;
      here = find_off-update_off p.by4 o d d.off refl f;
      others = find_off-update_off_other p.by4 o;
      marks = λ off n. refl;
      distinct = h.distinct;
      placed = record {
        address = k.address ∙ addr_of-base p (touch p d now) d.off refl;
        nonzero = k.nonzero;
        inside = k.inside;
        marked = k.marked;
        listed = k.listed;
      };
      owner = λ b a off l. owned p d.off d b a off h f l;
      alone = λ b off l. h.single b d.dormant d.addr6 off d.off l k.listed;
      kept = λ b a off n l. l;
    }

-- Lookups that find an object set its time of use.
pub touch-IsPool :
    (p : Pool) (d : DynHost) (now : ℕ)
    → IsPool p
    → find_off d.off p.by4 ≡ some d
    → IsPool (touch p d now)
touch-IsPool p d now h f =
    change-IsPool p (touch p d now) d.off (record d { last_use = now }) h
      (touch-IsChange p d now h f)
