-- ===== src/Config/Local.antt =====
-- The checks of `ResolveWith` on the translator's own addresses.
use clatto.Base.{if◌then◌else◌, Bool, true, false, not, ◌&&◌, ◌||◌, ok, err}
use clatto.Netutil.{valid, link_local, invalid, classify4, valid6, embed, is_private4}
use clatto.Netip.{
  Addr, Prefix, zero_addr, v6, is4, is6, is_4in6, as4, as16, eq_addr, contains, is_valid_addr,
  is_valid_prefix,
}
use clatto.Addrmap.Entry.{add_self}
use clatto.Addrmap.Table.{is_well_known, is_valid4}
use clatto.Config.{Config, link_local_ipv4, bool_or}
use clatto.Config.Draft.{
  Draft, fail, warn, attempt, has_errors, no_ipv4, not_ipv4, reserved_ipv4, no_ipv6, not_ipv6,
  reserved_ipv6, ipv6_well_known, ipv6_inside_prefix, ipv6_underivable, ipv6_private,
  ipv6_link_local, bad_self,
}

-- An assignment to `local6` and `v6Derived`.
unfoldable pub set_local6 : Addr → Bool → Draft → Draft
set_local6 a derived d = record d { local6 = a; v6_derived = derived }

unfoldable pub check_ipv4 : Draft → Draft
check_ipv4 d =
    if not (is_valid_addr d.ipv4)
    then fail no_ipv4 d
    else if not (is4 d.ipv4)
    then fail not_ipv4 d
    else elim (classify4 (as4 d.ipv4)) [
      | invalid ↦ fail reserved_ipv4 d
      | link_local ↦ warn link_local_ipv4 d
      | valid ↦ d
    ]

-- `netutil.WellKnownPrefix`.
abbrev pub well_known : Prefix
well_known = record {
  addr = v6 (0, 0x64, 0xff, 0x9b, 0, 0, 0, 0, 0, 0, 0, 0, 0, 0, 0, 0);
  bits = 96;
}

abbrev pub is_strict : Config → Bool
is_strict cfg = bool_or cfg.wkpf_strict true

-- The address that the prefix embeds `ipv4_address` at, or the zero address.
unfoldable pub derived_ipv6 : Config → Addr → Addr
derived_ipv6 cfg a =
    if is_valid_prefix cfg.prefix && is4 a
    then (elim (embed (as16 cfg.prefix.addr) cfg.prefix.bits (as4 a)) [
      | ok b ↦ v6 b
      | err e ↦ zero_addr
    ])
    else zero_addr

unfoldable pub check_explicit : Config → Draft → Draft
check_explicit cfg d =
    let a = d.local6 in
    if not (is6 a) || is_4in6 a
    then fail not_ipv6 d
    else if not (valid6 (as16 a))
    then fail reserved_ipv6 d
    else if is_strict cfg && contains well_known a
    then fail ipv6_well_known d
    else if is_valid_prefix cfg.prefix && contains cfg.prefix a
    then fail ipv6_inside_prefix d
    else d

unfoldable pub derive : Config → Draft → Draft
derive cfg d = elim (embed (as16 cfg.prefix.addr) cfg.prefix.bits (as4 d.ipv4)) [
  | err e ↦ fail ipv6_underivable d
  | ok b ↦
      if is_strict cfg && is_well_known cfg.prefix && is_private4 (as4 d.ipv4)
      then fail ipv6_private d
      else if not (is_valid4 (as4 d.ipv4))
      then fail ipv6_link_local d
      else set_local6 (v6 b) true d
]

-- The switch on `local6`; a case that no condition meets does nothing.
unfoldable pub check_ipv6 : Config → Draft → Draft
check_ipv6 cfg given =
    let d = set_local6 cfg.ipv6_address false given in
    if is_valid_addr d.local6 && eq_addr d.local6 (derived_ipv6 cfg d.ipv4)
    then set_local6 d.local6 true d
    else if is_valid_addr d.local6
    then check_explicit cfg d
    else if not (is_valid_prefix cfg.prefix)
    then fail no_ipv6 d
    else if is4 d.ipv4
    then derive cfg d
    else d

unfoldable pub add_own : Draft → Draft
add_own d =
    if has_errors d then d else attempt bad_self (add_self d.builder d.ipv4 d.local6 d.v6_derived) d
