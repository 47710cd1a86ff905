-- ===== src/Addrmap/Pool/Invariant/Hosts.antt =====
-- The moves that `assign` and `Maintain` make with a host keep the invariant of the pool.
use clatto.Base.{
  ℕ, ◌≡◌, ◌≤◌, ◌<◌, ◌/◌, refl, ap, sym, ◌∙◌, arith, Bool, true, false, not, inl, inr, Option, some,
  none, ◌∷◌, length,
}
use clatto.Netutil.{Addr6}
use clatto.Addrmap.Pool.{
  Pool, DynHost, find_off, update_off, delete_off, find6, insert6, delete6, is_used, set_used,
  clear_used, addr_of, activate,
}
use clatto.Addrmap.Pool.Assign.{take_free, steal}
use clatto.Addrmap.Pool.Bitmap.{
  is_used-set_used, is_used-set_used_other, is_used-clear_used, is_used-clear_used_same,
  length-set_used, length-clear_used,
}
use clatto.Addrmap.Pool.Maps.{
  find_off-update_off, find_off-update_off_other, find_off-here, find_off-replaced,
  find_off-delete_off_other,
}
use clatto.Addrmap.Pool.Invariant.{IsPool, IsShape, side}
use clatto.Addrmap.Pool.Invariant.Steps.{owned, addr_of-base}
use clatto.Addrmap.Pool.Invariant.Moves.{move-IsPool}
use clatto.Addrmap.Pool.Invariant.Removal.{without, without-IsPool, without-entry}

-- The addresses of a pool that no state has.
abbrev pub IsNew : Pool → Addr6 → Type 0
IsNew p a = (b : Bool) → find6 a (side p b) ≡ none

pub IsNew-of :
    (p : Pool) (a : Addr6) → find6 a p.mapped ≡ none → find6 a p.dormant ≡ none → IsNew p a
IsNew-of p a h k true = k
IsNew-of p a h k false = h

none_not_some : {off : ℕ} {o : Option ℕ} → o ≡ none → ¬ (o ≡ some off)
none_not_some h k = ground (arith, h, k)

module _ (p : Pool) (d o : DynHost) (h : IsPool p) (found : find_off d.off p.by4 ≡ some d)
    (same_address : o.addr4 ≡ d.addr4) (same_host : o.addr6 ≡ d.addr6)
    (same_off : o.off ≡ d.off) where
  -- An object that changes its state.
  pub switch-IsPool :
      (q : Pool)
      → q.prefix ≡ p.prefix
      → q.max ≡ p.max
      → q.base ≡ p.base
      → q.used ≡ p.used
      → q.by4 ≡ update_off o p.by4
      → side q o.dormant ≡ insert6 o.addr6 d.off (side p o.dormant)
      → side q (not o.dormant) ≡ delete6 o.addr6 (side p (not o.dormant))
      → IsPool q
  switch-IsPool q prefix max base used by4 to from =
      let k = h.placed d.off d found in
      move-IsPool p q d.off o h record {
        same_prefix = prefix;
        same_max = max;
        same_base = base;
        same_words = ap length used;
        here = ap (find_off d.off) by4 ∙ find_off-update_off p.by4 o d d.off same_off found;
        others = λ off n.
            ap (find_off off) by4
            ∙ find_off-update_off_other p.by4 o off (λ e. n (sym same_off ∙ e));
        marks = λ off n. ap (λ u. is_used u off) used;
        address = same_address ∙ k.address;
        nonzero = k.nonzero;
        inside = k.inside;
        marked = ap (λ u. is_used u d.off) used ∙ k.marked;
        to = to;
        from = from;
        alone = λ b off l.
            h.single b d.dormant d.addr6 off d.off
              (ap (λ a. find6 a (side p b)) (sym same_host) ∙ l) k.listed;
        unique = λ b a l. elim (owned p d.off d b a d.off h found l) [
          | inl (e, (q, s)) ↦ q ∙ sym same_host
          | inr (n, l) ↦ absurd (n refl)
        ];
      }

-- A dormant host that is active again.
pub reactivate-IsPool :
    (p : Pool) (d : DynHost) (now : ℕ)
    → IsPool p
    → find_off d.off p.by4 ≡ some d
    → IsPool (activate p d now)
unfolding activate
reactivate-IsPool p d now h f =
    switch-IsPool p d (record d { dormant = false; last_use = now }) h f refl refl refl
      (activate p d now) refl refl refl refl refl refl refl

-- A mapped host that becomes dormant.
pub retire-IsPool :
    (p : Pool) (d : DynHost) (q : Pool)
    → IsPool p
    → find_off d.off p.by4 ≡ some d
    → q ≡ record p {
      mapped = delete6 d.addr6 p.mapped;
      by4 = update_off (record d { dormant = true }) p.by4;
      dormant = insert6 d.addr6 d.off p.dormant;
      log = q.log;
    }
    → IsPool q
retire-IsPool p d q h f e =
    switch-IsPool p d (record d { dormant = true }) h f refl refl refl q (ap (λ x. x.prefix) e)
      (ap (λ x. x.max) e) (ap (λ x. x.base) e) (ap (λ x. x.used) e) (ap (λ x. x.by4) e)
      (ap (λ x. x.dormant) e) (ap (λ x. x.mapped) e)

-- The words of the bitmap reach the offset.
pub word_bound :
    (p : Pool) (width off : ℕ) → IsShape p width → off ≤ p.max → off / 64 < length p.used
word_bound p width off s h = omega (arith, s.words)

module _ (p : Pool) (h : IsPool p) where
  -- A new object at a free offset, mapped or dormant.
  pub fresh-IsPool :
      (o : DynHost) (q : Pool)
      → ¬ (o.off ≡ 0)
      → o.off ≤ p.max
      → is_used p.used o.off ≡ false
      → o.addr4 ≡ addr_of p o.off
      → IsNew p o.addr6
      → q.prefix ≡ p.prefix
      → q.max ≡ p.max
      → q.base ≡ p.base
      → q.used ≡ set_used p.used o.off
      → find_off o.off q.by4 ≡ some o
      → ((off : ℕ) → ¬ (o.off ≡ off) → find_off off q.by4 ≡ find_off off p.by4)
      → side q o.dormant ≡ insert6 o.addr6 o.off (side p o.dormant)
      → side q (not o.dormant) ≡ delete6 o.addr6 (side p (not o.dormant))
      → IsPool q
  fresh-IsPool o q nonzero inside free address new prefix max base used here others to from =
      let room = word_bound p h.width o.off h.shape inside in
      move-IsPool p q o.off o h record {
        same_prefix = prefix;
        same_max = max;
        same_base = base;
        same_words = ap length used ∙ length-set_used p.used o.off;
        here = here;
        others = others;
        marks =
            λ off n. ap (λ u. is_used u off) used ∙ is_used-set_used_other p.used o.off off room n;
        address = address;
        nonzero = nonzero;
        inside = inside;
        marked = ap (λ u. is_used u o.off) used ∙ is_used-set_used p.used o.off room;
        to = to;
        from = from;
        alone = λ b off l. absurd (none_not_some (new b) l);
        unique = λ b a l.
            let k = h.held b a o.off l in
            let m = (h.placed o.off k.host k.found).marked in absurd (ground (arith, free, m));
      }

  pub take_free-IsPool :
      (now : ℕ) (a : Addr6) (off : ℕ)
      → ¬ (off ≡ 0)
      → off ≤ p.max
      → is_used p.used off ≡ false
      → IsNew p a
      → IsPool (take_free p now a off).1
  unfolding take_free activate
  take_free-IsPool now a off nonzero inside free new =
      let d : DynHost = record {
        addr4 = addr_of p off;
        addr6 = a;
        off = off;
        last_use = 0;
        dormant = false;
      } in
      let o = record d { last_use = now } in
      let all = d ∷ delete_off off p.by4 in
      fresh-IsPool o (take_free p now a off).1 nonzero inside free refl new refl refl refl refl
        (find_off-update_off all o d off refl (find_off-here d (delete_off off p.by4)))
        (λ other n. find_off-update_off_other all o other n ∙ find_off-replaced d other p.by4 n)
        refl refl

  -- A dormant object that goes to another host.
  pub steal-IsPool :
      (now : ℕ) (a : Addr6) (d : DynHost)
      → find_off d.off p.by4 ≡ some d
      → d.dormant ≡ true
      → IsNew p a
      → IsPool (steal p now a d).1
  unfolding steal activate
  steal-IsPool now a d f s new =
      let o = record d { addr6 = a; last_use = now; dormant = false } in
      let u = clear_used p.used d.off in
      let q = without p d u in
      let k = h.placed d.off d f in
      let size = length-clear_used p.used d.off in
      let bound = word_bound p h.width d.off h.shape k.inside in
      let marks : (off : ℕ) → ¬ (d.off ≡ off) → is_used u off ≡ is_used p.used off =
        λ off n. is_used-clear_used p.used d.off off bound n in
      let cleared = is_used-clear_used_same p.used d.off bound in
      let entry = without-entry p d u h f s size marks cleared in
      move-IsPool q (steal p now a d).1 d.off o (without-IsPool p d u h f s size marks cleared)
        record {
          same_prefix = refl;
          same_max = refl;
          same_base = refl;
          same_words = sym size;
          here = find_off-update_off p.by4 o d d.off refl f;
          others = λ off n.
              find_off-update_off_other p.by4 o off n
              ∙ sym (find_off-delete_off_other d.off off p.by4 n);
          marks = λ off n. sym (marks off n);
          address = k.address ∙ addr_of-base p q d.off refl;
          nonzero = k.nonzero;
          inside = k.inside;
          marked = k.marked;
          to = refl;
          from = refl;
          alone = λ b off l. absurd (none_not_some (new b) (entry b a off l).1);
          unique = λ b x l. absurd ((entry b x d.off l).0 refl);
        }
