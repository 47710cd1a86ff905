-- ===== src/Addrmap/Entry.antt =====
-- The entries of internal/addrmap/table.go, and the checks of its `Builder`.
use clatto.Base.{
  ℕ, ◌+◌, ◌==◌, if◌then◌else◌, Bool, true, false, not, ◌||◌, Option, none, some, List, [], ◌∷◌,
  ◌++◌, length, Result, ok, err,
}
use clatto.Netutil.{valid6, valid_prefix_len}
use clatto.Netip.{Addr, zero_addr, v4, Prefix, is4, is6, is_4in6, as4, as16, is_masked}
use clatto.Xlate.Packet.Parse4.{is_invalid4}

pub data EntryKind : Type 0 where
  static rfc6052 dynamic_pool dynamic_host : EntryKind

abbrev pub eq_kind : EntryKind → EntryKind → Bool
eq_kind EntryKind.static EntryKind.static = true
eq_kind EntryKind.rfc6052 EntryKind.rfc6052 = true
eq_kind EntryKind.dynamic_pool EntryKind.dynamic_pool = true
eq_kind EntryKind.dynamic_host EntryKind.dynamic_host = true
eq_kind _ _ = false

-- The source compares entries as pointers: `id` is the place of an entry in the builder.
pub record Entry : Type 0 where
  pub id : ℕ
  pub kind : EntryKind
  pub net4 : Prefix
  pub net6 : Prefix
  pub v4_only : Bool

abbrev pub eq_entry : Entry → Entry → Bool
eq_entry e o = e.id == o.id

abbrev pub no_prefix : Prefix
no_prefix = record { addr = zero_addr; bits = 0 }

-- `0.0.0.0/0`.
abbrev pub all4 : Prefix
all4 = record { addr = v4 (0, 0, 0, 0); bits = 0 }

-- `Builder`; its pool is the prefix of one.
pub record Builder : Type 0 where
  pub wkpf_strict : Bool
  pub entries : List Entry
  pub pool : Option Prefix

abbrev pub new_builder : Bool → Builder
new_builder strict = record { wkpf_strict = strict; entries = []; pool = none }

pub data AddError : Type 0 where
  not_ipv6 bad_length host_bits reserved_range duplicate_prefix : AddError
  not_ipv4 different_sizes reserved4 reserved6 duplicate_pool : AddError

abbrev pub append_entry : Builder → EntryKind → Prefix → Prefix → Bool → Builder
append_entry b kind net4 net6 only = record b {
  entries =
      b.entries
      ++ record { id = length b.entries; kind = kind; net4 = net4; net6 = net6; v4_only = only }
        ∷ [];
}

unfoldable pub any_rfc6052 : List Entry → Bool
any_rfc6052 [] = false
any_rfc6052 (e ∷ es) = if eq_kind e.kind EntryKind.rfc6052 then true else any_rfc6052 es

unfoldable pub add_prefix : Builder → Prefix → Result AddError Builder
add_prefix b p =
    if not (is6 p.addr) || is_4in6 p.addr
    then err not_ipv6
    else if not (valid_prefix_len p.bits)
    then err bad_length
    else if not (is_masked p)
    then err host_bits
    else if not (valid6 (as16 p.addr))
    then err reserved_range
    else if any_rfc6052 b.entries
    then err duplicate_prefix
    else ok (append_entry b EntryKind.rfc6052 all4 p false)

-- `32-v4.Bits() != 128-v6.Bits()`, without the subtractions.
abbrev pub same_size : Prefix → Prefix → Bool
same_size p4 p6 = p4.bits + 96 == p6.bits

unfoldable pub add_static : Builder → Prefix → Prefix → Result AddError Builder
add_static b p4 p6 =
    if not (is4 p4.addr)
    then err not_ipv4
    else if not (is6 p6.addr) || is_4in6 p6.addr
    then err not_ipv6
    else if not (same_size p4 p6)
    then err different_sizes
    else if not (is_masked p4) || not (is_masked p6)
    then err host_bits
    else if is_invalid4 (as4 p4.addr)
    then err reserved4
    else if not (valid6 (as16 p6.addr))
    then err reserved6
    else ok (append_entry b EntryKind.static p4 p6 false)

unfoldable pub add_self : Builder → Addr → Addr → Bool → Result AddError Builder
add_self b a4 a6 derived =
    let p4 : Prefix = record { addr = a4; bits = 32 } in
    let p6 : Prefix = record { addr = a6; bits = 128 } in
    if not derived
    then add_static b p4 p6
    else if not (is4 a4) || is_invalid4 (as4 a4)
    then err reserved4
    else ok (append_entry b EntryKind.static p4 p6 true)

unfoldable pub set_pool : Builder → Prefix → Result AddError Builder
set_pool b p = elim b.pool [
  | some q ↦ err duplicate_pool
  | none ↦ ok (append_entry (record b { pool = some p }) EntryKind.dynamic_pool p no_prefix false)
]
