-- ===== src/Config/RouteLaws.antt =====
-- The routes that `ResolveWith` derives have different prefixes, and the explicit ones come first.
use clatto.Base.{
  ◌≡◌, ◌==◌, ==_refl, refl, sym, ◌∙◌, ap, subst, arith, if◌then◌else◌, Bool-cases, true, false,
  ◌&&◌, inl, inr, List, [], ◌∷◌, ◌++◌,
}
use clatto.Netip.{Addr, zero_addr, v4, v6, Prefix, is4, eq_prefix, eq_addr}
use clatto.Netconf.{Route, member}
use clatto.Config.Routes.{
  RouteSet, add_route, add_routes, no_routes, netconf_routes, resolve_routes,
}

abbrev pub prefixes : List Route → List Prefix
prefixes [] = []
prefixes (r ∷ rs) = r.prefix ∷ prefixes rs

-- No prefix stands before itself in the list.
pub NoRepeat : List Prefix → Type 0
NoRepeat [] = Unit
NoRepeat (p ∷ ps) = (member eq_prefix p ps ≡ false) × NoRepeat ps

member-append :
    (p : Prefix) (ps qs : List Prefix)
    → member eq_prefix p (ps ++ qs)
      ≡ (if member eq_prefix p ps then true else member eq_prefix p qs)
unfolding member
member-append p [] qs = refl
member-append p (q ∷ ps) qs = elim (Bool-cases (eq_prefix q p)) [
  | inl k ↦ rw k refl
  | inr k ↦ rw k (member-append p ps qs)
]

pub eq_prefix_eq : (p q : Prefix) → eq_prefix p q ≡ true → p ≡ q
eq_prefix_eq p q h = same p.addr q.addr h refl refl
  where
    same : (a b : Addr) → (eq_addr a b && p.bits == q.bits) ≡ true → p.addr ≡ a → q.addr ≡ b → p ≡ q
    same a b h x y = ground arith

pub eq_prefix_refl : (p : Prefix) → eq_prefix p p ≡ true
eq_prefix_refl p = same p.addr refl
  where
    same : (a : Addr) → p.addr ≡ a → (eq_addr a a && p.bits == p.bits) ≡ true
    same zero_addr h = ground (arith, ==_refl p.bits)
    same (v4 a) h = ground (arith, ==_refl p.bits)
    same (v6 a) h = ground (arith, ==_refl p.bits)

member-last :
    (p q : Prefix) (ps : List Prefix)
    → member eq_prefix q ps ≡ false
    → ¬ (p ≡ q)
    → member eq_prefix q (ps ++ p ∷ []) ≡ false
unfolding member
member-last p q ps h n = elim (Bool-cases (eq_prefix p q)) [
  | inl k ↦ absurd (n (eq_prefix_eq p q k))
  | inr k ↦ member-append q ps (p ∷ []) ∙ rw h (rw k refl)
]

NoRepeat-last :
    (p : Prefix) (ps : List Prefix)
    → NoRepeat ps
    → member eq_prefix p ps ≡ false
    → NoRepeat (ps ++ p ∷ [])
unfolding NoRepeat member
NoRepeat-last p [] h m = (refl, tt)
NoRepeat-last p (q ∷ ps) h m = elim (Bool-cases (eq_prefix q p)) [
  | inl k ↦ absurd (ground (arith, k, m))
  | inr k ↦
      let apart : ¬ (p ≡ q) =
        λ e. ground (arith, k, subst (λ x. eq_prefix q x ≡ true) (sym e) (eq_prefix_refl q)) in
      let rest : member eq_prefix p ps ≡ false = rw k at m in
      (member-last p q ps h.0 apart, NoRepeat-last p ps h.1 rest)
]

prefixes-append : (rs qs : List Route) → prefixes (rs ++ qs) ≡ prefixes rs ++ prefixes qs
prefixes-append [] qs = refl
prefixes-append (r ∷ rs) qs = ap (◌∷◌ r.prefix) (prefixes-append rs qs)

-- The routes of a set have been seen, and have different prefixes.
record IsFamily (seen : List Prefix) (rs : List Route) : Type 0 where
  was_seen :
      (p : Prefix) → member eq_prefix p seen ≡ false → member eq_prefix p (prefixes rs) ≡ false
  distinct : NoRepeat (prefixes rs)

member_later :
    (p q : Prefix) (seen : List Prefix)
    → member eq_prefix q (p ∷ seen) ≡ false
    → (¬ (p ≡ q)) × (member eq_prefix q seen ≡ false)
unfolding member
member_later p q seen h = elim (Bool-cases (eq_prefix p q)) [
  | inl k ↦ absurd (ground (arith, k, h))
  | inr k ↦
      let rest : member eq_prefix q seen ≡ false = rw k at h in
      (λ e. ground (arith, k, subst (λ x. eq_prefix p x ≡ true) e (eq_prefix_refl p)), rest)
]

IsFamily-more :
    (p : Prefix) (seen : List Prefix) (rs : List Route) → IsFamily seen rs → IsFamily (p ∷ seen) rs
IsFamily-more p seen rs h = record {
  was_seen = λ q m. h.was_seen q (member_later p q seen m).1;
  distinct = h.distinct;
}

IsFamily-add :
    (r : Route) (seen : List Prefix) (rs : List Route)
    → IsFamily seen rs
    → member eq_prefix r.prefix seen ≡ false
    → IsFamily (r.prefix ∷ seen) (rs ++ r ∷ [])
IsFamily-add r seen rs h new =
    let all = prefixes-append rs (r ∷ []) in
    record {
      was_seen = λ q m.
          let (apart, before) = member_later r.prefix q seen m in
          ap (member eq_prefix q) all
          ∙ member-last r.prefix q (prefixes rs) (h.was_seen q before) apart;
      distinct =
          subst NoRepeat (sym all)
            (NoRepeat-last r.prefix (prefixes rs) h.distinct (h.was_seen r.prefix new));
    }

abbrev IsRouteSet : RouteSet → Type 0
IsRouteSet s = IsFamily s.seen s.routes4 × IsFamily s.seen s.routes6

add_route-IsRouteSet : (s : RouteSet) (r : Route) → IsRouteSet s → IsRouteSet (add_route s r)
unfolding add_route
add_route-IsRouteSet s r h = elim (Bool-cases (member eq_prefix r.prefix s.seen)) [
  | inl k ↦ rw (add_route, k) h
  | inr k ↦ elim (Bool-cases (is4 r.prefix.addr)) [
    | inl f ↦
        rw (add_route, k)
          (rw f
            (IsFamily-add r s.seen s.routes4 h.0 k, IsFamily-more r.prefix s.seen s.routes6 h.1))
    | inr f ↦
        rw (add_route, k)
          (rw f
            (IsFamily-more r.prefix s.seen s.routes4 h.0, IsFamily-add r s.seen s.routes6 h.1 k))
  ]
]

add_routes-IsRouteSet :
    (s : RouteSet) (rs : List Route) → IsRouteSet s → IsRouteSet (add_routes s rs)
unfolding add_routes
add_routes-IsRouteSet s [] h = h
add_routes-IsRouteSet s (r ∷ rs) h =
    add_routes-IsRouteSet (add_route s r) rs (add_route-IsRouteSet s r h)

-- No two of the IPv4 routes, and no two of the IPv6 routes, that ResolveWith derives from the explicit
-- and the automatic ones have the same prefix.
pub resolve_routes-NoRepeat :
    (explicit auto : List Route)
    → NoRepeat (prefixes (resolve_routes explicit auto).routes4)
      × NoRepeat (prefixes (resolve_routes explicit auto).routes6)
unfolding resolve_routes NoRepeat
resolve_routes-NoRepeat explicit auto =
    let none_yet : IsFamily [] [] = record { was_seen = λ p m. m; distinct = tt } in
    let h =
      add_routes-IsRouteSet (add_routes no_routes (netconf_routes explicit)) auto
        (add_routes-IsRouteSet no_routes (netconf_routes explicit) (none_yet, none_yet)) in
    (h.0.distinct, h.1.distinct)
