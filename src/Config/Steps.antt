-- ===== src/Config/Steps.antt =====
-- Every check of `ResolveWith` keeps the errors, the MTUs and, but for the pool's, the existing pool.
use Prim.Native.String.{String}
use clatto.Base.{
  refl, Bool, true, false, not, ◌&&◌, ◌||◌, inl, inr, Option, none, some, List, [], ◌∷◌, ◌++◌,
  Result, ok, err, Result-cases,
}
use clatto.Netutil.{is_private4, Class4, embed, classify4, valid6}
use clatto.Netip.{
  v6, Addr, Prefix, as4, as16, is4, is6, is_4in6, is_valid_prefix, is_valid_addr, eq_addr, contains,
}
use clatto.Netconf.{Filter}
use clatto.Addrmap.Entry.{add_prefix, add_static, add_self}
use clatto.Config.{Config, Clat, StaticMap, link_local_ipv4}
use clatto.Config.Words.{Texts, parse_udp_checksum, parse_addr_or_prefix}
use clatto.Config.Filters.{parse_filter}
use clatto.Config.Draft
use clatto.Config.Draft.{
  Draft, ConfigError, fail, fail_if, warn, attempt, has_errors, check_udp, check_interface,
  check_prefix, add_map, add_maps, check_maps, is_nil, is_link_local,
}
use clatto.Config.SharedAddress.{
  SourceAddrType, fill_clat, own_ipv4, check_clat_ipv4, check_clat_table, read_ports, of_source,
  detect, of_address, find_shared, add_shared, name_shared, share, check_clat, resolve_clat,
}
use clatto.Addrmap.Table.{is_well_known, is_valid4}
use clatto.Config.Local.{
  is_strict, well_known, set_local6, check_ipv4, check_explicit, derive, check_ipv6, add_own,
  derived_ipv6,
}
use clatto.Config.Resolve.{before_pool}
use clatto.Config.Progress.{
  Grows, Grows-refl, Grows-trans, fail-Grows, fail_if-Grows, if-Grows, set-Grows, warn-Grows,
  attempt-Grows,
}

-- A check that goes by an optional value, or by a result.
option-Grows :
    {A : Type 0} {d x : Draft} {y : A → Draft} (o : Option A)
    → Grows d x
    → ((a : A) → Grows d (y a))
    → Grows d (elim o [ none ↦ x | some a ↦ y a ])
option-Grows none h k = h
option-Grows (some a) h k = k a

result-Grows :
    {E A : Type 0} {d : Draft} {x : E → Draft} {y : A → Draft} (r : Result E A)
    → ((e : E) → Grows d (x e))
    → ((a : A) → Grows d (y a))
    → Grows d (elim r [ err e ↦ x e | ok a ↦ y a ])
result-Grows (err e) h k = h e
result-Grows (ok a) h k = k a

pub check_udp-Grows : (t : Texts) (cfg : Config) (d : Draft) → Grows d (check_udp t cfg d)
unfolding check_udp
check_udp-Grows t cfg d =
    option-Grows (parse_udp_checksum t cfg.udp_checksum) (fail-Grows Draft.bad_udp_checksum d)
      (λ m. set-Grows d (record d { udp_checksum = m }) refl refl refl refl refl)

pub check_interface-Grows :
    (t : Texts) (cfg : Config) (d : Draft) → Grows d (check_interface t cfg d)
unfolding check_interface
check_interface-Grows t cfg d = Grows-trans (fail_if-Grows _ _ d) (
    Grows-trans (fail_if-Grows _ _ _) (Grows-trans (fail_if-Grows _ _ _) (check_udp-Grows t cfg _)))

check_prefix-Grows : (cfg : Config) (d : Draft) → Grows d (check_prefix cfg d)
unfolding check_prefix
check_prefix-Grows cfg d =
    if-Grows (is_valid_prefix cfg.prefix) (attempt-Grows _ (add_prefix d.builder cfg.prefix) d)
      (Grows-refl d)

add_map-Grows : (p4 p6 : Option Prefix) (d : Draft) → Grows d (add_map p4 p6 d)
unfolding add_map
add_map-Grows none p6 d = fail-Grows _ d
add_map-Grows (some p4) none d = fail-Grows _ d
add_map-Grows (some p4) (some p6) d =
    Grows-trans (if-Grows (is_link_local p4.addr) (warn-Grows _ d) (Grows-refl d))
      (attempt-Grows _ _ _)

add_maps-Grows : (t : Texts) (ms : List StaticMap) (d : Draft) → Grows d (add_maps t ms d)
unfolding add_maps
add_maps-Grows t [] d = Grows-refl d
add_maps-Grows t (m ∷ ms) d =
    Grows-trans (add_map-Grows (parse_addr_or_prefix t m.ipv4) (parse_addr_or_prefix t m.ipv6) d)
      (add_maps-Grows t ms _)

check_maps-Grows : (t : Texts) (cfg : Config) (d : Draft) → Grows d (check_maps t cfg d)
unfolding check_maps
check_maps-Grows t cfg d =
    Grows-trans (add_maps-Grows t cfg.maps d)
      (if-Grows (is_valid_prefix cfg.prefix) (Grows-refl _) (fail_if-Grows (is_nil cfg.maps) _ _))

check_clat_ipv4-Grows : (c : Clat) (d : Draft) → Grows d (check_clat_ipv4 c d)
unfolding check_clat_ipv4
check_clat_ipv4-Grows c d = if-Grows _ (fail-Grows _ d) (fail_if-Grows _ _ d)

check_clat_table-Grows : (c : Clat) (d : Draft) → Grows d (check_clat_table c d)
unfolding check_clat_table
check_clat_table-Grows c d = if-Grows _ (fail-Grows _ d) (fail_if-Grows _ _ d)

read_ports-Grows :
    (t : Texts) (ss : List String) (fs : List Filter) (d : Draft) → Grows d (read_ports t ss fs d).1
unfolding read_ports
read_ports-Grows t [] fs d = Grows-refl d
read_ports-Grows t (s ∷ ss) fs d = elim (Result-cases (parse_filter t s)) [
  | inl (f, k) ↦ rw (read_ports, k) (read_ports-Grows t ss (fs ++ f ∷ []) d)
  | inr (e, k) ↦ rw (read_ports, k) (Grows-trans (fail-Grows _ d) (read_ports-Grows t ss fs _))
]

of_source-Grows : (o : Option Addr) (d : Draft) → Grows d (of_source o d)
of_source-Grows none d = fail-Grows _ d
of_source-Grows (some a) d =
    Grows-trans (set-Grows d (record d { shared6 = a }) refl refl refl refl refl) (warn-Grows _ _)

detect-Grows : (source : SourceAddrType) (p : Prefix) (d : Draft) → Grows d (detect source p d)
detect-Grows none p d = fail-Grows _ d
detect-Grows (some source) p d = of_source-Grows (source p.addr) d

of_address-Grows : (o : Option Addr) (d : Draft) → Grows d (of_address o d)
of_address-Grows none d = fail-Grows _ d
of_address-Grows (some a) d = set-Grows d _ refl refl refl refl refl

find_shared-Grows :
    (t : Texts) (source : SourceAddrType) (cfg : Config) (c : Clat) (d : Draft)
    → Grows d (find_shared t source cfg c d)
unfolding find_shared
find_shared-Grows t source cfg c d = if-Grows _ (fail-Grows _ d) (
    if-Grows _ (detect-Grows source cfg.prefix d)
      (of_address-Grows (t.parse_addr c.ipv6_address) d))

name_shared-Grows : (t : Texts) (c : Clat) (d : Draft) → Grows d (name_shared t c d)
unfolding name_shared
name_shared-Grows t c d = set-Grows d _ refl refl refl refl refl

set_local6-Grows : (a : Addr) (b : Bool) (d : Draft) → Grows d (set_local6 a b d)
unfolding set_local6
set_local6-Grows a b d = set-Grows d _ refl refl refl refl refl

add_shared-Grows :
    (t : Texts) (cfg : Config) (c : Clat) (d : Draft) → Grows d (add_shared t cfg c d)
unfolding add_shared
add_shared-Grows t cfg c d = if-Grows (not (is_valid_addr d.shared6)) (Grows-refl d) (
    if-Grows (not (is6 d.shared6) || is_4in6 d.shared6) (fail-Grows Draft.clat_not_ipv6 d) (
      if-Grows (not (valid6 (as16 d.shared6))) (fail-Grows Draft.clat_reserved_ipv6 d) (
        if-Grows (is_valid_prefix cfg.prefix && contains cfg.prefix d.shared6)
          (fail-Grows Draft.clat_inside_prefix d)
          (Grows-trans (name_shared-Grows t c d) (
            attempt-Grows Draft.clat_static
              (add_static d.builder (record { addr = c.ipv4_address; bits = 32 })
                (record { addr = d.shared6; bits = 128 }))
              (name_shared t c d))))))

share-Grows :
    (cfg : Config) (c : Clat) (filters : List Filter) (d : Draft) → Grows d (share cfg c filters d)
unfolding share
share-Grows cfg c filters d =
    if-Grows (has_errors d) (Grows-refl d) (set-Grows d _ refl refl refl refl refl)

resolve_clat-Grows :
    (t : Texts) (source : SourceAddrType) (cfg : Config) (d : Draft)
    → Grows d (resolve_clat t source cfg d)
unfolding resolve_clat check_clat
resolve_clat-Grows t source cfg d = option-Grows cfg.clat (Grows-refl d) (λ given.
    let c = fill_clat given in
    Grows-trans
      (set-Grows d (record d { ipv4 = own_ipv4 d.ipv4; clat = some c }) refl refl refl refl refl)
      (Grows-trans (check_clat_ipv4-Grows c _) (
        Grows-trans (check_clat_table-Grows c _) (
          Grows-trans (read_ports-Grows t c.ports [] _) (
            Grows-trans (find_shared-Grows t source cfg c _)
              (Grows-trans (add_shared-Grows t cfg c _) (share-Grows cfg c _ _)))))))

check_ipv4-Grows : (d : Draft) → Grows d (check_ipv4 d)
unfolding check_ipv4
check_ipv4-Grows d =
    if-Grows (not (is_valid_addr d.ipv4)) (fail-Grows Draft.no_ipv4 d) (
      if-Grows (not (is4 d.ipv4)) (fail-Grows Draft.not_ipv4 d) (by_class (classify4 (as4 d.ipv4))))
  where
    by_class :
        (c : Class4)
        → Grows d (elim c [
          | Class4.invalid ↦ fail Draft.reserved_ipv4 d
          | Class4.link_local ↦ warn link_local_ipv4 d
          | Class4.valid ↦ d
        ])
    by_class Class4.invalid = fail-Grows _ d
    by_class Class4.link_local = warn-Grows _ d
    by_class Class4.valid = Grows-refl d

check_explicit-Grows : (cfg : Config) (d : Draft) → Grows d (check_explicit cfg d)
unfolding check_explicit
check_explicit-Grows cfg d =
    let a = d.local6 in
    if-Grows (not (is6 a) || is_4in6 a) (fail-Grows Draft.not_ipv6 d) (
      if-Grows (not (valid6 (as16 a))) (fail-Grows Draft.reserved_ipv6 d) (
        if-Grows (is_strict cfg && contains well_known a) (fail-Grows Draft.ipv6_well_known d) (
          if-Grows (is_valid_prefix cfg.prefix && contains cfg.prefix a)
            (fail-Grows Draft.ipv6_inside_prefix d) (Grows-refl d))))

derive-Grows : (cfg : Config) (d : Draft) → Grows d (derive cfg d)
unfolding derive
derive-Grows cfg d =
    result-Grows (embed (as16 cfg.prefix.addr) cfg.prefix.bits (as4 d.ipv4))
      (λ e. fail-Grows Draft.ipv6_underivable d)
      (λ b.
        if-Grows (is_strict cfg && is_well_known cfg.prefix && is_private4 (as4 d.ipv4))
          (fail-Grows Draft.ipv6_private d)
          (if-Grows (not (is_valid4 (as4 d.ipv4))) (fail-Grows Draft.ipv6_link_local d)
            (set_local6-Grows (v6 b) true d)))

check_ipv6-Grows : (cfg : Config) (d : Draft) → Grows d (check_ipv6 cfg d)
unfolding check_ipv6
check_ipv6-Grows cfg d =
    let e = set_local6 cfg.ipv6_address false d in
    Grows-trans (set_local6-Grows cfg.ipv6_address false d) (
      if-Grows (is_valid_addr e.local6 && eq_addr e.local6 (derived_ipv6 cfg e.ipv4))
        (set_local6-Grows e.local6 true e)
        (if-Grows (is_valid_addr e.local6) (check_explicit-Grows cfg e) (
          if-Grows (not (is_valid_prefix cfg.prefix)) (fail-Grows Draft.no_ipv6 e)
            (if-Grows (is4 e.ipv4) (derive-Grows cfg e) (Grows-refl e)))))

add_own-Grows : (d : Draft) → Grows d (add_own d)
unfolding add_own
add_own-Grows d =
    if-Grows (has_errors d) (Grows-refl d)
      (attempt-Grows Draft.bad_self (add_self d.builder d.ipv4 d.local6 d.v6_derived) d)

pub before_pool-Grows :
    (t : Texts) (source : SourceAddrType) (cfg : Config) (d : Draft)
    → Grows (check_interface t cfg d) (before_pool t source cfg d)
unfolding before_pool
before_pool-Grows t source cfg d = Grows-trans (check_prefix-Grows cfg _) (
    Grows-trans (resolve_clat-Grows t source cfg _) (
      Grows-trans (check_maps-Grows t cfg _) (
        Grows-trans (check_ipv4-Grows _) (Grows-trans (check_ipv6-Grows cfg _) (add_own-Grows _)))))
