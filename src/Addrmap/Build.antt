-- ===== src/Addrmap/Build.antt =====
-- `Build` of internal/addrmap/table.go: the entries are checked against one another and sorted.
pub mod Order
pub mod Overlap
use clatto.Base.{
  ℕ, ◌==◌, ltb, leb, if◌then◌else◌, Bool, true, false, not, ◌&&◌, ◌||◌, Option, none, some, List,
  [], ◌∷◌, ◌++◌, Result, ok, err, ◌>>=◌,
}
use clatto.Netip.{Addr, Prefix, eq_addr, eq_prefix, overlaps}
use clatto.Addrmap.Entry.{Entry, EntryKind, Builder, eq_kind, eq_entry}

-- `Table`; the dynamic pool is a state of its own, and `has_pool` says that the pointer to it is set.
pub record Table : Type 0 where
  pub wkpf_strict : Bool
  pub prefix : Option Entry
  pub hosts4 : List (Addr × Entry)
  pub hosts6 : List (Addr × Entry)
  pub nets4 : List Entry
  pub nets6 : List Entry
  pub has_pool : Bool
  pub pool_entry : Option Entry

pub data BuildError : Type 0 where
  address_twice prefix_twice pool_is_static overlapping : BuildError

unfoldable pub find_host : Addr → List (Addr × Entry) → Option Entry
find_host a [] = none
find_host a ((b, e) ∷ hosts) = if eq_addr b a then some e else find_host a hosts

-- `sort.SliceStable` by a length, the longest first: an insertion sort, which is stable.
unfoldable pub insert_sorted : (Entry → ℕ) → Entry → List Entry → List Entry
insert_sorted len e [] = e ∷ []
insert_sorted len e (o ∷ es) =
    if leb (len o) (len e) then e ∷ o ∷ es else o ∷ insert_sorted len e es

unfoldable pub sort_by : (Entry → ℕ) → List Entry → List Entry
sort_by len [] = []
sort_by len (e ∷ es) = insert_sorted len e (sort_by len es)

unfoldable pub any_duplicate4 : Entry → List Entry → Bool
any_duplicate4 e [] = false
any_duplicate4 e (o ∷ es) =
    if not (eq_kind o.kind EntryKind.dynamic_pool) && eq_prefix o.net4 e.net4
    then true
    else any_duplicate4 e es

-- The variables of the loop over the entries.
pub record Sides : Type 0 where
  pub table : Table
  pub v6s : List Entry

unfoldable pub place_static : Sides → Entry → Result BuildError Sides
place_static s e =
    let v6s = if e.v4_only then s.v6s else s.v6s ++ e ∷ [] in
    let t = s.table in
    if e.net4.bits == 32
    then (elim (find_host e.net4.addr t.hosts4) [
      | some o ↦ err address_twice
      | none ↦ ok (record { table = record t { hosts4 = (e.net4.addr, e) ∷ t.hosts4 }; v6s = v6s })
    ])
    else if any_duplicate4 e t.nets4
    then err prefix_twice
    else ok (record { table = record t { nets4 = t.nets4 ++ e ∷ [] }; v6s = v6s })

unfoldable pub place : Sides → Entry → Result BuildError Sides
place s e = elim e.kind [
  | EntryKind.rfc6052 ↦ ok (record {
    table = record s.table { prefix = some e; nets4 = s.table.nets4 ++ e ∷ [] };
    v6s = s.v6s ++ e ∷ [];
  })
  | EntryKind.dynamic_pool ↦
      ok (record s {
        table = record s.table { pool_entry = some e; nets4 = s.table.nets4 ++ e ∷ [] };
      })
  | EntryKind.static ↦ place_static s e
  | EntryKind.dynamic_host ↦ ok s
]

unfoldable pub place_all : Sides → List Entry → Result BuildError Sides
place_all s [] = ok s
place_all s (e ∷ es) = place s e >>= λ s'. place_all s' es

unfoldable pub pool_conflict : Entry → List Entry → Bool
pool_conflict p [] = false
pool_conflict p (o ∷ es) =
    if not (eq_entry o p) && eq_kind o.kind EntryKind.static && eq_prefix o.net4 p.net4
    then true
    else pool_conflict p es

unfoldable pub any_overlap : Entry → List Entry → Bool
any_overlap e [] = false
any_overlap e (o ∷ es) = if overlaps o.net6 e.net6 then true else any_overlap e es

-- A host or a net of the IPv6 side.
unfoldable pub put6 : Table → Entry → Table
put6 t e =
    if eq_kind e.kind EntryKind.static && e.net6.bits == 128
    then record t { hosts6 = (e.net6.addr, e) ∷ t.hosts6 }
    else record t { nets6 = t.nets6 ++ e ∷ [] }

-- The loop over the IPv6 side; `before` is the part of the list that is done.
unfoldable pub place6 : Table → List Entry → List Entry → Result BuildError Table
place6 t before [] = ok t
place6 t before (e ∷ es) =
    let rest = place6 (put6 t e) (before ++ e ∷ []) es in
    if any_overlap e before then err overlapping else rest

abbrev pub empty_table : Builder → Table
empty_table b = record {
  wkpf_strict = b.wkpf_strict;
  prefix = none;
  hosts4 = [];
  hosts6 = [];
  nets4 = [];
  nets6 = [];
  has_pool = elim b.pool [ some _ ↦ true | none ↦ false ];
  pool_entry = none;
}

unfoldable pub check_pool : Table → Result BuildError Table
check_pool t = elim t.pool_entry [
  | none ↦ ok t
  | some p ↦ if pool_conflict p t.nets4 then err pool_is_static else ok t
]

abbrev pub len4 : Entry → ℕ
len4 e = e.net4.bits

abbrev pub len6 : Entry → ℕ
len6 e = e.net6.bits

unfoldable pub build : Builder → Result BuildError Table
build b = place_all (record { table = empty_table b; v6s = [] }) (sort_by len4 b.entries) >>= λ s.
    check_pool s.table >>= λ t. place6 t [] (sort_by len6 s.v6s)
