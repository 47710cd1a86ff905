-- ===== src/Addrmap/Tests.antt =====
-- Runs of the mapper: a table with the NAT64 prefix 64:ff9b::/96, two static nets and a pool.
use clatto.Xlate.Packet.Parse4.{is_invalid4}
use clatto.Base.{ℕ, ◌≡◌, ◌≤◌, ◌⊎◌, ◌↔◌, refl, true, false, [], ◌∷◌, All, some, ok}
use clatto.Netutil.{Addr4, Addr6, embed, classify4}
use clatto.Netip.{v4, v6, Prefix, contains, overlaps, is_masked}
use clatto.Addrmap.Entry.{Entry, EntryKind, Builder, all4, no_prefix, eq_entry}
use clatto.Addrmap.Build.{
  Table, build, len4, sort_by, insert_sorted, place_all, place, place_static, place6, put6,
  any_overlap, any_duplicate4, find_host, check_pool, pool_conflict,
}
use clatto.Addrmap.Build.Overlap.{AllApart, place6_iff}
use clatto.Addrmap.Pool.{Pool, DynHost, new_pool, is_used, addr_of, find_off}
use clatto.Addrmap.Pool.Assign.{scan_free, hash6, fold_hash, assign_new, take_free, pool_lookup6}
use clatto.Addrmap.Pool.Leases.{pool_lookup6-assign_new}
use clatto.Addrmap.Table.{lookup4, find_net4, embed_in, extract_from, is_well_known, is_reserved}
use clatto.Addrmap.Table.{Mapper, map_ipv6_to_ipv4}
use clatto.Addrmap.Table.Unallocated.{SameLeases, map_ipv6_to_ipv4-SameLeases}
use clatto.Addrmap.Table.Mapping.{extract_from-embed_in}
use clatto.Addrmap.Table.Lookup.{find_net4-build}
use clatto.Addrmap.Table.Reserved.{assign_new-is_reserved}

abbrev net4 : ℕ → ℕ → Prefix
net4 c n = record { addr = v4 (192, 0, c, 0); bits = n }

abbrev net6 : ℕ → ℕ → Prefix
net6 c n = record { addr = v6 (0x20, 1, 0x0d, 0xb8, 0, 0, 0, 0, 0, 0, 0, 0, 0, 0, c, 0); bits = n }

abbrev nat64 : Entry
nat64 = record {
  id = 0;
  kind = EntryKind.rfc6052;
  net4 = all4;
  net6 = record { addr = v6 (0, 0x64, 0xff, 0x9b, 0, 0, 0, 0, 0, 0, 0, 0, 0, 0, 0, 0); bits = 96 };
  v4_only = false;
}

abbrev static24 : Entry
static24 = record {
  id = 1;
  kind = EntryKind.static;
  net4 = net4 2 24;
  net6 = net6 2 120;
  v4_only = false;
}

abbrev static25 : Entry
static25 = record {
  id = 2;
  kind = EntryKind.static;
  net4 = net4 3 25;
  net6 = net6 3 121;
  v4_only = false;
}

abbrev of_pool : Entry
of_pool = record {
  id = 3;
  kind = EntryKind.dynamic_pool;
  net4 = net4 5 30;
  net6 = no_prefix;
  v4_only = false;
}

abbrev builder : Builder
builder = record {
  wkpf_strict = false;
  entries = nat64 ∷ static24 ∷ static25 ∷ of_pool ∷ [];
  pool = some (net4 5 30);
}

abbrev table : Table
table = record {
  wkpf_strict = false;
  prefix = some nat64;
  hosts4 = [];
  hosts6 = [];
  nets4 = of_pool ∷ static25 ∷ static24 ∷ nat64 ∷ [];
  nets6 = static25 ∷ static24 ∷ nat64 ∷ [];
  has_pool = true;
  pool_entry = some of_pool;
}

built : build builder ≡ ok table
unfolding build sort_by insert_sorted place_all place place_static place6 put6 any_overlap
    any_duplicate4 check_pool pool_conflict overlaps contains find_host
built = refl

found25 : find_net4 (v4 (192, 0, 3, 9)) table.nets4 ≡ some static25
unfolding find_net4 contains
found25 = refl

find_net4-build_example :
    (contains static25.net4 (v4 (192, 0, 3, 9)) ≡ true)
    × All (λ o. contains o.net4 (v4 (192, 0, 3, 9)) ≡ true → len4 o ≤ len4 static25) table.nets4
find_net4-build_example = find_net4-build builder table (v4 (192, 0, 3, 9)) static25 built found25

place6_iff_example :
    ((u : Table) × (place6 table [] (static25 ∷ static24 ∷ []) ≡ ok u))
    ↔ AllApart [] (static25 ∷ static24 ∷ [])
place6_iff_example = place6_iff table [] (static25 ∷ static24 ∷ [])

abbrev far : Addr4
far = (8, 8, 8, 8)

abbrev far6 : Addr6
far6 = (0, 0x64, 0xff, 0x9b, 0, 0, 0, 0, 0, 0, 0, 0, 8, 8, 8, 8)

looked_up : lookup4 table (v4 far) ≡ some nat64
unfolding lookup4 find_net4 contains find_host
looked_up = refl

embedded : embed_in table far nat64.net6 ≡ ok (v6 far6)
unfolding embed_in embed classify4 is_well_known
embedded = refl

extract_from-embed_in_example : extract_from table nat64 far6 ≡ ok (v4 far)
extract_from-embed_in_example = extract_from-embed_in table far nat64 far6 looked_up embedded

abbrev pool : Pool
pool = record {
  prefix = net4 5 30;
  base = 0xc0000500;
  max = 3;
  min_lease = 7440;
  max_lease = 1209600;
  used = 1 ∷ [];
  by4 = [];
  mapped = [];
  dormant = [];
  dirty = false;
  log = [];
}

made : new_pool (net4 5 30) 0 0 ≡ ok pool
unfolding new_pool is_masked is_invalid4 classify4
made = refl

abbrev guest : Addr6
guest = (0x20, 1, 0x0d, 0xb8, 0, 0, 0, 0, 0, 0, 0, 0, 0, 0, 0, 9)

-- The address that the scan gives it.
abbrev given : Addr4
given = (192, 0, 5, 2)

assigned : (assign_new (is_reserved table) pool 100 guest).0 ≡ some given
unfolding assign_new scan_free hash6 fold_hash is_used take_free addr_of is_reserved lookup4
    find_net4 contains find_host
assigned = refl

pool_lookup6-assign_new_example :
    (pool_lookup6
      (is_reserved table)
      (assign_new (is_reserved table) pool 100 guest).1
      9000
      guest
      false).0
    ≡ some given
pool_lookup6-assign_new_example =
    pool_lookup6-assign_new (is_reserved table) pool 100 9000 guest given false assigned

assign_new-is_reserved_example :
    ((e : Entry) × ((lookup4 table (v4 given) ≡ some e) × (eq_entry e of_pool ≡ true)))
    ⊎ ((d : DynHost) × ((find_off d.off pool.by4 ≡ some d) × (given ≡ d.addr4)))
assign_new-is_reserved_example =
    assign_new-is_reserved table of_pool pool 100 guest given refl assigned

abbrev mapper : Mapper
mapper = record { table = table; pool = pool; now = 100 }

map_ipv6_to_ipv4-SameLeases_example :
    SameLeases pool (map_ipv6_to_ipv4 mapper (v6 guest) false).1.pool
map_ipv6_to_ipv4-SameLeases_example = map_ipv6_to_ipv4-SameLeases mapper (v6 guest)
