-- ===== src/Addrmap/Pool/Assign.antt =====
-- `assign` of internal/addrmap/pool.go, and `lookup6`, which calls it.
use clatto.Base.{
  ℕ, zero, suc, ◌+◌, ◌-◌, ◌==◌, ltb, if◌then◌else◌, Bool, true, false, ◌||◌, Option, none, some,
  List, [], ◌∷◌, bit_and, u32, ◌>>>◌,
}
use clatto.Netutil.{Addr4, Addr6}
use clatto.Netip.{zero_addr, v6, num4}
use clatto.Xlate.Events.{Reason}
use clatto.Addrmap.Pool.{
  DynHost, Pool, addr_of, is_used, set_used, find_off, delete_off, find6, delete6, deref, touch,
  dyn_event, tell_pool, activate,
}

-- The inner loop of the hash, with fuel: bits above the mask are folded down.
unfoldable pub fold_hash : ℕ → ℕ → ℕ → ℕ → ℕ
fold_hash zero max shift h = h
fold_hash (suc fuel) max shift h =
    let again = fold_hash fuel max shift (u32 (bit_and h max + (h >>> shift))) in
    if h - bit_and h max == 0 then h else again

abbrev pub hash_word : ℕ → ℕ → ℕ → ℕ → ℕ
hash_word max shift h word = let s = u32 (h + word) in fold_hash (suc s) max shift s

unfoldable pub hash6 : Pool → Addr6 → ℕ
hash6 p a =
    let word = hash_word p.max (32 - p.prefix.bits) in
    word
      (word (word (word 0 (num4 (a.0, a.1, a.2, a.3))) (num4 (a.4, a.5, a.6, a.7)))
        (num4 (a.8, a.9, a.10, a.11)))
      (num4 (a.12, a.13, a.14, a.15))

-- The scan for a free offset: the rounds left, and the index.
unfoldable pub scan_free : (Addr4 → Bool) → Pool → ℕ → ℕ → ℕ → Option ℕ
scan_free reserved p h zero i = none
scan_free reserved p h (suc left) i =
    let off = bit_and (u32 (h + i)) p.max in
    let rest = scan_free reserved p h left (i + 1) in
    if off == 0 || is_used p.used off
    then rest
    else if reserved (addr_of p off)
    then rest
    else some off

-- The dormant assignment that was used least recently: one step of the loop, and the loop.
unfoldable pub older : Option DynHost → Option DynHost → Option DynHost
older none best = best
older (some d) none = some d
older (some d) (some b) = if ltb d.last_use b.last_use then some d else some b

unfoldable pub oldest_of : Pool → List (Addr6 × ℕ) → Option DynHost → Option DynHost
oldest_of p [] best = best
oldest_of p ((a, off) ∷ m) best = oldest_of p m (older (find_off off p.by4) best)

-- A free offset is taken.
unfoldable pub take_free : Pool → ℕ → Addr6 → ℕ → Addr4 × Pool
take_free p now a off =
    let d : DynHost = record {
      addr4 = addr_of p off;
      addr6 = a;
      off = off;
      last_use = 0;
      dormant = false;
    } in
    let p' =
      activate (record p { used = set_used p.used off; by4 = d ∷ delete_off off p.by4 }) d now in
    (addr_of p off, tell_pool (record p' { dirty = true }) Reason.dynamic_assigned d)

-- The oldest dormant assignment goes to another host.
unfoldable pub steal : Pool → ℕ → Addr6 → DynHost → Addr4 × Pool
steal p now a oldest =
    let d = record oldest { addr6 = a } in
    let p' = activate (record p { dormant = delete6 oldest.addr6 p.dormant }) d now in
    (oldest.addr4, tell_pool (record p' { dirty = true }) Reason.dynamic_reassigned d)

abbrev pub exhausted : Pool → Addr6 → Option Addr4 × Pool
exhausted p a =
    (none, record p { log = dyn_event Reason.dynamic_exhausted zero_addr (v6 a) ∷ p.log })

-- From the scan on.
unfoldable pub assign_new : (Addr4 → Bool) → Pool → ℕ → Addr6 → Option Addr4 × Pool
assign_new reserved p now a = elim (scan_free reserved p (hash6 p a) (p.max + 1) 0) [
  | some off ↦ let r = take_free p now a off in (some r.0, r.1)
  | none ↦ elim (oldest_of p p.dormant none) [
    | none ↦ exhausted p a
    | some d ↦ let r = steal p now a d in (some r.0, r.1)
  ]
]

unfoldable pub assign : (Addr4 → Bool) → Pool → ℕ → Addr6 → Option Addr4 × Pool
assign reserved p now a = elim (deref p (find6 a p.mapped)) [
  | some d ↦ (some d.addr4, touch p d now)
  | none ↦ elim (deref p (find6 a p.dormant)) [
    | some d ↦ (some d.addr4, tell_pool (activate p d now) Reason.dynamic_reactivated d)
    | none ↦ assign_new reserved p now a
  ]
]

unfoldable pub pool_lookup6 : (Addr4 → Bool) → Pool → ℕ → Addr6 → Bool → Option Addr4 × Pool
pool_lookup6 reserved p now a allocate = elim (deref p (find6 a p.mapped)) [
  | some d ↦ (some d.addr4, touch p d now)
  | none ↦ if allocate then assign reserved p now a else (none, p)
]
