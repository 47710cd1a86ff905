-- ===== src/Addrmap/Pool/Reports.antt =====
-- `SetLeases`, and what a pool reports of itself: `Assignments`, `Stats`, `Dirty`, `usedCount`.
use clatto.Base.{
  ℕ, zero, suc, ◌+◌, ◌-◌, ◌/◌, ◌%◌, ◌==◌, ltb, if◌then◌else◌, Bool, true, false, none, some, List,
  [], ◌∷◌, ◌++◌, length,
}
use clatto.Netutil.{Addr4, Addr6}
use clatto.Netip.{num4}
use clatto.Addrmap.Pool.{Pool, DynHost, default_min_lease, default_max_lease, find_off}

unfoldable pub set_leases : Pool → ℕ → ℕ → Pool
set_leases p min_lease max_lease = record p {
  min_lease = if min_lease == 0 then default_min_lease else min_lease;
  max_lease = if max_lease == 0 then default_max_lease else max_lease;
}

pub record Assignment : Type 0 where
  pub addr4 : Addr4
  pub addr6 : Addr6
  pub last_use : ℕ
  pub dormant : Bool

-- The objects that the entries of a map point to.
unfoldable pub hosts_in : Pool → List (Addr6 × ℕ) → List DynHost
hosts_in p [] = []
hosts_in p ((a, off) ∷ m) =
    let rest = hosts_in p m in elim (find_off off p.by4) [ none ↦ rest | some d ↦ d ∷ rest ]

abbrev pub show_hosts : Bool → List DynHost → List Assignment
show_hosts dormant [] = []
show_hosts dormant (d ∷ ds) =
    record { addr4 = d.addr4; addr6 = d.addr6; last_use = d.last_use; dormant = dormant }
    ∷ show_hosts dormant ds

-- `sort.Slice` by a number: an insertion sort.
unfoldable pub insert_by : {A : Type 0} → (A → ℕ) → A → List A → List A
insert_by key x [] = x ∷ []
insert_by key x (y ∷ ys) =
    let rest = insert_by key x ys in if ltb (key y) (key x) then y ∷ rest else x ∷ y ∷ ys

unfoldable pub sort_slice : {A : Type 0} → (A → ℕ) → List A → List A
sort_slice key [] = []
sort_slice key (x ∷ xs) = insert_by key x (sort_slice key xs)

-- Ordered by the IPv4 address.
unfoldable pub assignments : Pool → List Assignment
assignments p =
    sort_slice (λ x. num4 x.addr4)
      (show_hosts false (hosts_in p p.mapped) ++ show_hosts true (hosts_in p p.dormant))

pub record Stats : Type 0 where
  pub size : ℕ
  pub mapped : ℕ
  pub dormant : ℕ

unfoldable pub stats : Pool → Stats
stats p = record { size = p.max; mapped = length p.mapped; dormant = length p.dormant }

abbrev pub is_dirty : Pool → Bool
is_dirty p = p.dirty

-- `bits.OnesCount64`, and its sum over the bitmap less the network address.
unfoldable pub ones_count : ℕ → ℕ → ℕ
ones_count zero w = 0
ones_count (suc k) w = w % 2 + ones_count k (w / 2)

unfoldable pub count_words : List ℕ → ℕ
count_words [] = 0
count_words (w ∷ ws) = ones_count 64 w + count_words ws

unfoldable pub used_count : Pool → ℕ
used_count p = count_words p.used - 1
