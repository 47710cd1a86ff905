-- ===== src/Addrmap/Table/Entries.antt =====
-- `Entries` of internal/addrmap/table.go. The source leaves the order of entries of one kind with one
-- IPv4 address open, as it does that of the maps' iteration.
use clatto.Base.{ℕ, ◌+◌, ◌*◌, ◌^◌, if◌then◌else◌, Bool, true, false, List, [], ◌∷◌, ◌++◌}
use clatto.Netip.{Addr, num4, as4}
use clatto.Addrmap.Entry.{Entry, EntryKind, eq_entry}
use clatto.Addrmap.Build.{Table}
use clatto.Addrmap.Pool.Reports.{sort_slice}

unfoldable pub is_seen : Entry → List Entry → Bool
is_seen e [] = false
is_seen e (o ∷ es) = if eq_entry o e then true else is_seen e es

-- `add`, for each entry of a list.
unfoldable pub add_unseen : List Entry → List Entry → List Entry
add_unseen out [] = out
add_unseen out (e ∷ es) =
    let kept = add_unseen out es in
    let more = add_unseen (out ++ e ∷ []) es in if is_seen e out then kept else more

abbrev pub host_entries : List (Addr × Entry) → List Entry
host_entries [] = []
host_entries ((a, e) ∷ hosts) = e ∷ host_entries hosts

abbrev pub kind_rank : EntryKind → ℕ
kind_rank EntryKind.static = 0
kind_rank EntryKind.rfc6052 = 1
kind_rank EntryKind.dynamic_pool = 2
kind_rank EntryKind.dynamic_host = 3

-- By the kind, then by the IPv4 address.
abbrev pub entry_rank : Entry → ℕ
entry_rank e = kind_rank e.kind * 2 ^ 32 + num4 (as4 e.net4.addr)

unfoldable pub entries : Table → List Entry
entries t = sort_slice entry_rank (
    add_unseen
      (add_unseen (add_unseen (add_unseen [] (host_entries t.hosts4)) t.nets4)
        (host_entries t.hosts6))
      t.nets6)
