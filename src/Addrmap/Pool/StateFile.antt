-- ===== src/Addrmap/Pool/StateFile.antt =====
-- The state file of internal/addrmap/pool.go: `write`, `read`, and what `Save` and `Load` do around
-- them. A line is the list of its fields, as `strings.Fields` splits it. The parsers and printers of
-- net/netip, strconv and fmt are parameters, over a type of texts. A negative number, which the code
-- skips like zero, is one that `parse_int` refuses. The clock is past the lease time.
pub mod Reading
use clatto.Base.{
  ℕ, zero, suc, ◌+◌, ◌-◌, ◌==◌, ◌≡◌, ltb, leb, if◌then◌else◌, Bool, true, false, not, ◌&&◌, ◌||◌,
  Option, none, some, List, [], ◌∷◌, ◌++◌, bit_and, length,
}
use clatto.Netutil.{Addr4, Addr6, valid6}
use clatto.Netip.{Addr, zero_addr, v4, v6, num4, contains}
use clatto.Addrmap.Pool.{
  Pool, DynHost, is_used, set_used, find_off, delete_off, update_off, find6, insert6, activate,
}
use clatto.Addrmap.Pool.Reports.{hosts_in, sort_slice}

pub record Texts (T : Type 0) : Type 0 where
  pub parse_addr : T → Option Addr
  pub parse_int : T → Option ℕ
  pub is_comment : T → Bool
  pub show_addr : Addr → T
  pub show_int : ℕ → T

-- `write`: the header is comments and an empty line; then a line for each assignment.
abbrev pub write_host : {T : Type 0} → Texts T → DynHost → List T
write_host t d = t.show_addr (v4 d.addr4) ∷ t.show_addr (v6 d.addr6) ∷ t.show_int d.last_use ∷ []

abbrev pub write_hosts : {T : Type 0} → Texts T → List DynHost → List (List T)
write_hosts t [] = []
write_hosts t (d ∷ ds) = write_host t d ∷ write_hosts t ds

abbrev pub host_off : DynHost → ℕ
host_off d = d.off

unfoldable pub write : {T : Type 0} → Texts T → Pool → List (List T)
write t p = write_hosts t (sort_slice host_off (hosts_in p p.mapped ++ hosts_in p p.dormant))

-- `Save`, where the file can be written: the pool is no longer dirty.
unfoldable pub save : {T : Type 0} → Texts T → Pool → List (List T) × Pool
save t p = (write t p, record p { dirty = false })

-- The variables of the loop of `read`; `loaded` has the offsets of the new objects.
pub record Reader : Type 0 where
  pub pool : Pool
  pub count : ℕ
  pub future : Bool
  pub loaded : List ℕ

abbrev pub is_some : {A : Type 0} → Option A → Bool
is_some none = false
is_some (some x) = true

-- An entry that `read` skips.
unfoldable pub is_skipped : (Addr4 → Bool) → Pool → Addr4 → Addr6 → ℕ → Bool
is_skipped reserved p a4 a6 last =
    let off = bit_and (num4 a4) p.max in
    last == 0
    || not (contains p.prefix (v4 a4))
    || not (valid6 a6)
    || off == 0
    || is_used p.used off
    || reserved a4
    || is_some (find6 a6 p.dormant)
    || is_some (find6 a6 p.mapped)

-- The object of an entry.
abbrev pub entry_host : Pool → Addr4 → Addr6 → ℕ → DynHost
entry_host p a4 a6 last = record {
  addr4 = a4;
  addr6 = a6;
  off = bit_and (num4 a4) p.max;
  last_use = last;
  dormant = true;
}

abbrev pub with_dormant : Pool → DynHost → Pool
with_dormant p d = record p {
  used = set_used p.used d.off;
  by4 = d ∷ delete_off d.off p.by4;
  dormant = insert6 d.addr6 d.off p.dormant;
}

unfoldable pub read_entry : (Addr4 → Bool) → ℕ → Reader → Addr4 → Addr6 → ℕ → Reader
read_entry reserved now r a4 a6 last =
    if is_skipped reserved r.pool a4 a6 last
    then r
    else (let d = entry_host r.pool a4 a6 last in
        record {
          pool = with_dormant r.pool d;
          count = r.count + 1;
          future = r.future || ltb now last;
          loaded = r.loaded ++ d.off ∷ [];
        })

-- The fields of a line: of an IPv4 address, an IPv6 address and a time.
abbrev pub read_addrs : (Addr4 → Bool) → ℕ → Reader → Option Addr → Option Addr → Option ℕ → Reader
read_addrs reserved now r (some (v4 a4)) (some (v6 a6)) (some last) =
    read_entry reserved now r a4 a6 last
read_addrs reserved now r _ _ _ = r

unfoldable pub read_line : {T : Type 0} → Texts T → (Addr4 → Bool) → ℕ → Reader → List T → Reader
read_line t reserved now r (a ∷ b ∷ c ∷ []) =
    if t.is_comment a
    then r
    else read_addrs reserved now r (t.parse_addr a) (t.parse_addr b) (t.parse_int c)
read_line t reserved now r _ = r

unfoldable pub read_lines :
    {T : Type 0} → Texts T → (Addr4 → Bool) → ℕ → Reader → List (List T) → Reader
read_lines t reserved now r [] = r
read_lines t reserved now r (l ∷ ls) = read_lines t reserved now (read_line t reserved now r l) ls

-- The second loop of `read`.
unfoldable pub settle_host : ℕ → Bool → Pool → ℕ → Pool
settle_host now future p off = elim (find_off off p.by4) [
  | none ↦ p
  | some d ↦
      if future
      then record p { by4 = update_off (record d { last_use = now - p.min_lease }) p.by4 }
      else if leb now (d.last_use + p.min_lease)
      then activate p d d.last_use
      else p
]

unfoldable pub settle : ℕ → Bool → Pool → List ℕ → Pool
settle now future p [] = p
settle now future p (off ∷ offs) = settle now future (settle_host now future p off) offs

abbrev pub start_reader : Pool → Reader
start_reader p = record { pool = p; count = 0; future = false; loaded = [] }

-- `failed` is whether the scanner met an error after the lines.
unfoldable pub read :
    {T : Type 0} → Texts T → (Addr4 → Bool) → ℕ → Pool → List (List T) → Bool → ℕ × Pool
read t reserved now p lines failed =
    let r = read_lines t reserved now (start_reader p) lines in
    if failed then (r.count, r.pool) else (r.count, settle now r.future r.pool r.loaded)
