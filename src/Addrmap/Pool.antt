-- ===== src/Addrmap/Pool.antt =====
-- internal/addrmap/pool.go: dynamic assignments. A `dynHost` is an object that three maps share by
-- pointer; it is kept in `by4` under its offset for as long as it lives, so the other maps hold the
-- offset for the pointer. Map iteration follows the order of these lists. Times are in seconds.
pub mod Assign
pub mod Maintain
pub mod Scan
pub mod Bitmap
pub mod Maps
pub mod Invariant
pub mod Reports
pub mod StateFile
pub mod History
pub mod Found
pub mod Progress
pub mod Leases
use clatto.Base.{
  ℕ, zero, suc, ◌+◌, ◌-◌, ◌*◌, ◌/◌, ◌%◌, ◌^◌, ◌==◌, ltb, leb, if◌then◌else◌, Bool, true, false, not,
  ◌&&◌, ◌||◌, Option, none, some, List, [], ◌∷◌, get_or, set, bit_and, bit_or, u32, ◌<<<◌, ◌>>>◌,
  Result, ok, err,
}
use clatto.Netutil.{Addr4, Addr6}
use clatto.Netip.{Addr, zero_addr, v4, v6, Prefix, is4, as4, is_masked, num4, of_num4, eq6}
use clatto.Xlate.Events.{Event, Kind, Reason}
use clatto.Xlate.Packet.Parse4.{is_invalid4}

pub record DynHost : Type 0 where
  pub addr4 : Addr4
  pub addr6 : Addr6
  pub off : ℕ
  pub last_use : ℕ
  pub dormant : Bool

-- `log` is what the observer has been told, the newest first; `max` is the host mask.
pub record Pool : Type 0 where
  pub prefix : Prefix
  pub base : ℕ
  pub max : ℕ
  pub min_lease : ℕ
  pub max_lease : ℕ
  pub used : List ℕ
  pub by4 : List DynHost
  pub mapped : List (Addr6 × ℕ)
  pub dormant : List (Addr6 × ℕ)
  pub dirty : Bool
  pub log : List Event

abbrev pub default_min_lease : ℕ
default_min_lease = 7440

abbrev pub default_max_lease : ℕ
default_max_lease = 1209600

pub data PoolError : Type 0 where
  not_ipv4 host_bits bad_length reserved_address : PoolError

abbrev pub zeros : ℕ → List ℕ
zeros zero = []
zeros (suc n) = 0 ∷ zeros n

unfoldable pub new_pool : Prefix → ℕ → ℕ → Result PoolError Pool
new_pool p min_lease max_lease =
    if not (is4 p.addr)
    then err not_ipv4
    else if not (is_masked p)
    then err host_bits
    else if ltb p.bits 8 || ltb 31 p.bits
    then err bad_length
    else if is_invalid4 (as4 p.addr)
    then err reserved_address
    else (let max = 0xffffffff >>> p.bits in
        ok (record {
          prefix = p;
          base = num4 (as4 p.addr);
          max = max;
          min_lease = if min_lease == 0 then default_min_lease else min_lease;
          max_lease = if max_lease == 0 then default_max_lease else max_lease;
          used = set (zeros ((max + 1 + 63) / 64)) 0 1;
          by4 = [];
          mapped = [];
          dormant = [];
          dirty = false;
          log = [];
        }))

-- `addr`.
unfoldable pub addr_of : Pool → ℕ → Addr4
addr_of p off = of_num4 (bit_or p.base off)

-- The bitmap.
unfoldable pub is_used : List ℕ → ℕ → Bool
is_used used off = not (bit_and (get_or used (off / 64) 0) (1 <<< (off % 64)) == 0)

unfoldable pub set_used : List ℕ → ℕ → List ℕ
set_used used off = set used (off / 64) (bit_or (get_or used (off / 64) 0) (1 <<< (off % 64)))

-- `w &^= bit`.
unfoldable pub clear_used : List ℕ → ℕ → List ℕ
clear_used used off =
    let w = get_or used (off / 64) 0 in set used (off / 64) (w - bit_and w (1 <<< (off % 64)))

-- The objects, and the maps from IPv6 addresses to them.
unfoldable pub find_off : ℕ → List DynHost → Option DynHost
find_off off [] = none
find_off off (d ∷ ds) = if d.off == off then some d else find_off off ds

unfoldable pub delete_off : ℕ → List DynHost → List DynHost
delete_off off [] = []
delete_off off (d ∷ ds) = let rest = delete_off off ds in if d.off == off then rest else d ∷ rest

-- An assignment to the fields of an object.
unfoldable pub update_off : DynHost → List DynHost → List DynHost
update_off d [] = []
update_off d (o ∷ ds) = (if o.off == d.off then d else o) ∷ update_off d ds

unfoldable pub find6 : Addr6 → List (Addr6 × ℕ) → Option ℕ
find6 a [] = none
find6 a ((b, off) ∷ m) = if eq6 b a then some off else find6 a m

unfoldable pub delete6 : Addr6 → List (Addr6 × ℕ) → List (Addr6 × ℕ)
delete6 a [] = []
delete6 a ((b, off) ∷ m) = let rest = delete6 a m in if eq6 b a then rest else (b, off) ∷ rest

unfoldable pub insert6 : Addr6 → ℕ → List (Addr6 × ℕ) → List (Addr6 × ℕ)
insert6 a off m = (a, off) ∷ delete6 a m

-- What a map's pointer points to.
unfoldable pub deref : Pool → Option ℕ → Option DynHost
deref p none = none
deref p (some off) = find_off off p.by4

abbrev pub touch : Pool → DynHost → ℕ → Pool
touch p d now = record p { by4 = update_off (record d { last_use = now }) p.by4 }

unfoldable pub pool_lookup4 : Pool → ℕ → Addr4 → Option Addr6 × Pool
pool_lookup4 p now a = elim (find_off (bit_and (num4 a) p.max) p.by4) [
  | none ↦ (none, p)
  | some d ↦ if d.dormant then (none, p) else (some d.addr6, touch p d now)
]

abbrev pub dyn_event : Reason → Addr → Addr → Event
dyn_event reason src dst = record {
  kind = Kind.dynamic;
  reason = reason;
  family = 0;
  proto = 0;
  len = 0;
  src = src;
  dst = dst;
}

abbrev pub tell_pool : Pool → Reason → DynHost → Pool
tell_pool p reason d = record p { log = dyn_event reason (v4 d.addr4) (v6 d.addr6) ∷ p.log }

unfoldable pub activate : Pool → DynHost → ℕ → Pool
activate p d now = record p {
  dormant = delete6 d.addr6 p.dormant;
  by4 = update_off (record d { dormant = false; last_use = now }) p.by4;
  mapped = insert6 d.addr6 d.off p.mapped;
}
