-- ===== src/Addrmap/Pool/Invariant/Moves.antt =====
-- The moves of an object between the mapped and the dormant hosts keep the invariant of the pool.
use clatto.Base.{
  ◌≤◌, ℕ, ◌≡◌, refl, ap, sym, ◌∙◌, subst, arith, Bool, true, false, inl, inr, some, none, length,
  not,
}
use clatto.Netutil.{Addr6}
use clatto.Addrmap.Pool.{Pool, DynHost, find_off, find6, insert6, delete6, is_used, addr_of}
use clatto.Addrmap.Pool.Maps.{
  Distinct, Addr6-cases, find6-insert6, find6-insert6_other, insert6-Distinct, find6-delete6,
  find6-delete6_other, delete6-Distinct,
}
use clatto.Addrmap.Pool.Invariant.{IsPool, side}
use clatto.Addrmap.Pool.Invariant.Steps.{Owner, change-IsPool, addr_of-base}

-- The object `o` comes to `x`, under its address on its side; the other side has only what it had
-- and nothing of `x`. Its address was on no side but at `x`.
pub record IsMove (p q : Pool) (x : ℕ) (o : DynHost) : Type 0 where
  pub same_prefix : q.prefix ≡ p.prefix
  pub same_max : q.max ≡ p.max
  pub same_base : q.base ≡ p.base
  pub same_words : length q.used ≡ length p.used
  pub here : find_off x q.by4 ≡ some o
  pub others : (off : ℕ) → ¬ (x ≡ off) → find_off off q.by4 ≡ find_off off p.by4
  pub marks : (off : ℕ) → ¬ (x ≡ off) → is_used q.used off ≡ is_used p.used off
  pub address : o.addr4 ≡ addr_of p x
  pub nonzero : ¬ (x ≡ 0)
  pub inside : x ≤ p.max
  pub marked : is_used q.used x ≡ true
  pub to : side q o.dormant ≡ insert6 o.addr6 x (side p o.dormant)
  pub from : side q (not o.dormant) ≡ delete6 o.addr6 (side p (not o.dormant))
  pub alone : (b : Bool) (off : ℕ) → find6 o.addr6 (side p b) ≡ some off → off ≡ x
  pub unique : (b : Bool) (a : Addr6) → find6 a (side p b) ≡ some x → a ≡ o.addr6

to-Owner :
    (p : Pool) (x : ℕ) (o : DynHost) (a : Addr6) (off : ℕ)
    → ((b : Bool) (a' : Addr6) → find6 a' (side p b) ≡ some x → a' ≡ o.addr6)
    → find6 a (insert6 o.addr6 x (side p o.dormant)) ≡ some off
    → Owner p x o o.dormant a off
to-Owner p x o a off unique l = elim (Addr6-cases o.addr6 a) [
  | inl e ↦
      let here : find6 a (insert6 o.addr6 x (side p o.dormant)) ≡ some x =
        subst (λ k. find6 k (insert6 o.addr6 x (side p o.dormant)) ≡ some x) e
          (find6-insert6 o.addr6 x (side p o.dormant)) in
      inl (ground (arith, here, l), (sym e, refl))
  | inr n ↦
      let old = sym (find6-insert6_other o.addr6 a x (side p o.dormant) n) ∙ l in
      inr (λ e. n (sym (unique o.dormant a (old ∙ ap some e))), old)
]

from-Owner :
    (p : Pool) (x : ℕ) (o : DynHost) (b : Bool) (a : Addr6) (off : ℕ)
    → ((b : Bool) (a' : Addr6) → find6 a' (side p b) ≡ some x → a' ≡ o.addr6)
    → find6 a (delete6 o.addr6 (side p b)) ≡ some off
    → Owner p x o b a off
from-Owner p x o b a off unique l = elim (Addr6-cases o.addr6 a) [
  | inl e ↦
      let gone : find6 a (delete6 o.addr6 (side p b)) ≡ none =
        subst (λ k. find6 k (delete6 o.addr6 (side p b)) ≡ none) e
          (find6-delete6 o.addr6 (side p b)) in
      absurd (ground (arith, gone, l))
  | inr n ↦
      let old = sym (find6-delete6_other o.addr6 a (side p b) n) ∙ l in
      inr (λ e. n (sym (unique b a (old ∙ ap some e))), old)
]

-- A property of both sides, by which of them the object goes to.
by_side : (P : Bool → Type 0) (b : Bool) → P b → P (not b) → (c : Bool) → P c
by_side P true h k true = h
by_side P true h k false = k
by_side P false h k true = k
by_side P false h k false = h

module _ (p q : Pool) (x : ℕ) (o : DynHost) (h : IsPool p) (m : IsMove p q x o) where
  move-Distinct : (b : Bool) → Distinct (side q b)
  move-Distinct =
      by_side (λ b. Distinct (side q b)) o.dormant
        (subst Distinct (sym m.to) (insert6-Distinct o.addr6 x _ (h.distinct o.dormant)))
        (subst Distinct (sym m.from) (delete6-Distinct o.addr6 _ (h.distinct (not o.dormant))))

  move-Owner :
      (b : Bool) (a : Addr6) (off : ℕ) → find6 a (side q b) ≡ some off → Owner p x o b a off
  move-Owner =
      by_side (λ b. (a : Addr6) (off : ℕ) → find6 a (side q b) ≡ some off → Owner p x o b a off)
        o.dormant (λ a off l. to-Owner p x o a off m.unique (ap (find6 a) (sym m.to) ∙ l))
        (λ a off l. from-Owner p x o (not o.dormant) a off m.unique (ap (find6 a) (sym m.from) ∙ l))

  apart :
      (b : Bool) (a : Addr6) (off : ℕ)
      → ¬ (off ≡ x)
      → find6 a (side p b) ≡ some off
      → ¬ (o.addr6 ≡ a)
  apart b a off n l e = n (m.alone b off (ap (λ k. find6 k (side p b)) e ∙ l))

  move-kept :
      (b : Bool) (a : Addr6) (off : ℕ)
      → ¬ (off ≡ x)
      → find6 a (side p b) ≡ some off
      → find6 a (side q b) ≡ some off
  move-kept =
      by_side
        (λ b.
          (a : Addr6) (off : ℕ)
          → ¬ (off ≡ x)
          → find6 a (side p b) ≡ some off
          → find6 a (side q b) ≡ some off)
        o.dormant
        (λ a off n l.
          ap (find6 a) m.to ∙ find6-insert6_other o.addr6 a x _ (apart o.dormant a off n l) ∙ l)
        (λ a off n l.
          ap (find6 a) m.from
          ∙ find6-delete6_other o.addr6 a _ (apart (not o.dormant) a off n l)
          ∙ l)

  pub move-IsPool : IsPool q
  move-IsPool = change-IsPool p q x o h record {
    same_prefix = m.same_prefix;
    same_max = m.same_max;
    same_base = m.same_base;
    same_words = m.same_words;
    here = m.here;
    others = m.others;
    marks = m.marks;
    distinct = move-Distinct;
    placed = record {
      address = m.address ∙ addr_of-base p q x m.same_base;
      nonzero = m.nonzero;
      inside = rw m.same_max m.inside;
      marked = m.marked;
      listed = ap (find6 o.addr6) m.to ∙ find6-insert6 o.addr6 x (side p o.dormant);
    };
    owner = move-Owner;
    alone = m.alone;
    kept = move-kept;
  }
