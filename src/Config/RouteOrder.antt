-- ===== src/Config/RouteOrder.antt =====
-- Of the routes for one prefix, `ResolveWith` keeps the first: an explicit one replaces the automatic.
use clatto.Base.{
  ◌≡◌, refl, sym, ◌∙◌, ap, subst, arith, if◌then◌else◌, Bool, Bool-cases, true, false, inl, inr,
  ◌⊎◌, Option, some, none, List, [], ◌∷◌, ◌++◌,
}
use clatto.Netip.{Prefix, is4, eq_prefix}
use clatto.Netconf.{Route, member}
use clatto.Config.Routes.{
  RouteSet, add_route, add_routes, no_routes, netconf_routes, resolve_routes,
}
use clatto.Config.RouteLaws.{eq_prefix_eq, eq_prefix_refl}

-- The first route for a prefix.
pub find_route : Prefix → List Route → Option Route
find_route p [] = none
find_route p (r ∷ rs) = if eq_prefix r.prefix p then some r else find_route p rs

abbrev or_else : {A : Type 0} → Option A → Option A → Option A
or_else none y = y
or_else (some x) y = some x

find_route-append :
    (p : Prefix) (rs qs : List Route)
    → find_route p (rs ++ qs) ≡ or_else (find_route p rs) (find_route p qs)
unfolding find_route
find_route-append p [] qs = refl
find_route-append p (r ∷ rs) qs = elim (Bool-cases (eq_prefix r.prefix p)) [
  | inl k ↦ rw k refl
  | inr k ↦ rw k (find_route-append p rs qs)
]

or_else_none : {A : Type 0} (x : Option A) → or_else x none ≡ x
or_else_none none = refl
or_else_none (some x) = refl

-- The list of the routes of a set, for a family.
abbrev pub family : Bool → RouteSet → List Route
family true s = s.routes4
family false s = s.routes6

-- What has been seen of a prefix is in the list of its family.
abbrev Follows : RouteSet → Type 0
Follows s =
    (p : Prefix)
    → member eq_prefix p s.seen ≡ true
    → (r : Route) × (find_route p (family (is4 p.addr) s) ≡ some r)

-- One route more, for a prefix that may have been seen.
abbrev Turn : Prefix → RouteSet → Route → Type 0
Turn p s r =
    find_route p (family (is4 p.addr) (add_route s r))
    ≡ or_else (find_route p (family (is4 p.addr) s)) (find_route p (r ∷ []))

other_route : (p : Prefix) (r : Route) → ¬ (r.prefix ≡ p) → find_route p (r ∷ []) ≡ none
unfolding find_route
other_route p r n = elim (Bool-cases (eq_prefix r.prefix p)) [
  | inl k ↦ absurd (n (eq_prefix_eq r.prefix p k))
  | inr k ↦ rw k refl
]

-- The lists that a new prefix leads to.
new_family :
    (p : Prefix) (s : RouteSet) (r : Route)
    → member eq_prefix r.prefix s.seen ≡ false
    → (¬ (is4 p.addr ≡ is4 r.prefix.addr)
        × (family (is4 p.addr) (add_route s r) ≡ family (is4 p.addr) s))
      ⊎ (family (is4 p.addr) (add_route s r) ≡ family (is4 p.addr) s ++ r ∷ [])
unfolding add_route
new_family p s r k = elim (Bool-cases (is4 p.addr)) [
  | inl a ↦ elim (Bool-cases (is4 r.prefix.addr)) [
    | inl b ↦ inr (ground (arith, k, a, b))
    | inr b ↦ inl (ground (arith, a, b), ground (arith, k, a, b))
  ]
  | inr a ↦ elim (Bool-cases (is4 r.prefix.addr)) [
    | inl b ↦ inl (ground (arith, a, b), ground (arith, k, a, b))
    | inr b ↦ inr (ground (arith, k, a, b))
  ]
]

seen_family :
    (p : Prefix) (s : RouteSet) (r : Route)
    → member eq_prefix r.prefix s.seen ≡ true
    → add_route s r ≡ s
unfolding add_route
seen_family p s r k = rw (add_route, k) refl

turn : (p : Prefix) (s : RouteSet) (r : Route) → Follows s → Turn p s r
turn p s r follows = elim (Bool-cases (member eq_prefix r.prefix s.seen)) [
  | inl k ↦ rw (seen_family p s r k) (elim (Bool-cases (eq_prefix r.prefix p)) [
    | inl e ↦
        let same = eq_prefix_eq r.prefix p e in
        let (q, found) = follows p (subst (λ x. member eq_prefix x s.seen ≡ true) same k) in
        rw found refl
    | inr e ↦
        rw
          (other_route p r (λ x.
            ground
              (arith, e, subst (λ y. eq_prefix r.prefix y ≡ true) x (eq_prefix_refl r.prefix))))
          (sym (or_else_none (find_route p (family (is4 p.addr) s))))
  ])
  | inr k ↦ elim (new_family p s r k) [
    | inl (n, e) ↦
        rw (e, other_route p r (λ x. n (ap (λ y. is4 y.addr) (sym x))))
          (sym (or_else_none (find_route p (family (is4 p.addr) s))))
    | inr e ↦ rw e (find_route-append p (family (is4 p.addr) s) (r ∷ []))
  ]
]

some_or : {A : Type 0} (x : Option A) (a : A) → (b : A) × (or_else x (some a) ≡ some b)
some_or none a = (a, refl)
some_or (some b) a = (b, refl)

add_route-Follows : (s : RouteSet) (r : Route) → Follows s → Follows (add_route s r)
unfolding add_route find_route member
add_route-Follows s r follows p seen = elim (Bool-cases (member eq_prefix p s.seen)) [
  | inl k ↦
      let (q, found) = follows p k in
      (q, turn p s r follows ∙ ap (λ x. or_else x (find_route p (r ∷ []))) found)
  | inr k ↦ elim (Bool-cases (eq_prefix r.prefix p)) [
    | inl e ↦
        let one : find_route p (r ∷ []) ≡ some r = rw e refl in
        let (q, found) = some_or (find_route p (family (is4 p.addr) s)) r in
        (q, turn p s r follows ∙ ap (or_else (find_route p (family (is4 p.addr) s))) one ∙ found)
    | inr e ↦ absurd (not_seen p s r k e seen)
  ]
]
  where
    not_seen :
        (p : Prefix) (s : RouteSet) (r : Route)
        → member eq_prefix p s.seen ≡ false
        → eq_prefix r.prefix p ≡ false
        → ¬ (member eq_prefix p (add_route s r).seen ≡ true)
    not_seen p s r k e h = ground (arith, k, e, h)

or_else_assoc : {A : Type 0} (x y z : Option A) → or_else (or_else x y) z ≡ or_else x (or_else y z)
or_else_assoc none y z = refl
or_else_assoc (some a) y z = refl

add_routes_first :
    (p : Prefix) (s : RouteSet) (rs : List Route)
    → Follows s
    → find_route p (family (is4 p.addr) (add_routes s rs))
      ≡ or_else (find_route p (family (is4 p.addr) s)) (find_route p rs)
unfolding add_routes find_route
add_routes_first p s [] h = sym (or_else_none (find_route p (family (is4 p.addr) s)))
add_routes_first p s (r ∷ rs) h =
    let old = find_route p (family (is4 p.addr) s) in
    add_routes_first p (add_route s r) rs (add_route-Follows s r h)
    ∙ ap (λ x. or_else x (find_route p rs)) (turn p s r h)
    ∙ or_else_assoc old (find_route p (r ∷ [])) (find_route p rs)
    ∙ ap (or_else old) (sym (find_route-append p (r ∷ []) rs))

add_routes-Follows : (s : RouteSet) (rs : List Route) → Follows s → Follows (add_routes s rs)
unfolding add_routes
add_routes-Follows s [] h = h
add_routes-Follows s (r ∷ rs) h = add_routes-Follows (add_route s r) rs (add_route-Follows s r h)

nothing_found : (p : Prefix) → find_route p (family (is4 p.addr) no_routes) ≡ none
unfolding find_route
nothing_found p = elim (Bool-cases (is4 p.addr)) [ inl k ↦ rw k refl | inr k ↦ rw k refl ]

-- For every prefix, the first route among the routes of its family that ResolveWith derives is the
-- first one for the prefix among the explicit routes, masked, and then the automatic ones: none is
-- lost, and an explicit route replaces an automatic one.
pub resolve_routes_first :
    (explicit auto : List Route) (p : Prefix)
    → find_route p (family (is4 p.addr) (resolve_routes explicit auto))
      ≡ find_route p (netconf_routes explicit ++ auto)
unfolding resolve_routes member
resolve_routes_first explicit auto p =
    let none_yet : Follows no_routes = λ q seen. absurd (ground arith) in
    let given = netconf_routes explicit in
    add_routes_first p (add_routes no_routes given) auto
      (add_routes-Follows no_routes given none_yet)
    ∙ ap (λ x. or_else x (find_route p auto))
        (add_routes_first p no_routes given none_yet
          ∙ ap (λ x. or_else x (find_route p given)) (nothing_found p))
    ∙ sym (find_route-append p given auto)
