-- ===== src/Addrmap/Pool/StateFile/Reading.antt =====
-- `read` keeps the invariant of a pool, whatever the file holds.
use clatto.Base.{
  ℕ, ◌≡◌, ◌==◌, ◌+◌, ◌-◌, refl, sym, leb, arith, Bool, Bool-cases, true, false, inl, inr, Option,
  Option-cases, some, none, List, [], ◌∷◌, bit_and,
}
use clatto.Netutil.{Addr4, Addr6, valid6}
use clatto.Netip.{Addr, v4, v6, zero_addr, num4, contains}
use clatto.Addrmap.Pool.{Pool, is_used, find_off, delete_off, find6}
use clatto.Addrmap.Pool.Maps.{find_off-here, find_off-replaced, delete6_absent}
use clatto.Addrmap.Pool.Invariant.{IsPool}
use clatto.Addrmap.Pool.Invariant.Empty.{IsAddr4}
use clatto.Addrmap.Pool.Invariant.Addresses.{addr_of-offset}
use clatto.Addrmap.Pool.Invariant.Steps.{touch-IsPool}
use clatto.Addrmap.Pool.Invariant.Hosts.{IsNew-of, fresh-IsPool, reactivate-IsPool}
use clatto.Addrmap.Pool.Invariant.Operations.{at_own}
use clatto.Addrmap.Pool.StateFile.{
  Texts, Reader, is_skipped, entry_host, with_dormant, read_entry, read_addrs, read_line,
  read_lines, settle_host, settle, start_reader, read,
}

-- `netip.ParseAddr` gives addresses of bytes.
pub record IsParser {T : Type 0} (t : Texts T) : Type 0 where
  pub bytes : (x : T) (a : Addr4) → t.parse_addr x ≡ some (v4 a) → IsAddr4 a

-- What is known of an entry that is not skipped.
pub record IsAccepted (reserved : Addr4 → Bool) (p : Pool) (a4 : Addr4) (a6 : Addr6) (last : ℕ)
    : Type 0 where
  pub positive : (last == 0) ≡ false
  pub inside : contains p.prefix (v4 a4) ≡ true
  pub is_valid : valid6 a6 ≡ true
  pub nonzero : (bit_and (num4 a4) p.max == 0) ≡ false
  pub free : is_used p.used (bit_and (num4 a4) p.max) ≡ false
  pub allowed : reserved a4 ≡ false
  pub not_dormant : find6 a6 p.dormant ≡ none
  pub not_mapped : find6 a6 p.mapped ≡ none

pub accepted :
    (reserved : Addr4 → Bool) (p : Pool) (a4 : Addr4) (a6 : Addr6) (last : ℕ)
    → is_skipped reserved p a4 a6 last ≡ false
    → IsAccepted reserved p a4 a6 last
unfolding is_skipped
accepted reserved p a4 a6 last h = ground arith

with_dormant-IsPool :
    (reserved : Addr4 → Bool) (p : Pool) (a4 : Addr4) (a6 : Addr6) (last : ℕ)
    → IsPool p
    → IsAddr4 a4
    → IsAccepted reserved p a4 a6 last
    → IsPool (with_dormant p (entry_host p a4 a6 last))
with_dormant-IsPool reserved p a4 a6 last h bytes k =
    let d = entry_host p a4 a6 last in
    let (address, inside) = addr_of-offset p h.width a4 h.shape bytes k.inside in
    fresh-IsPool p h d (with_dormant p d) (λ e. ground (arith, k.nonzero, e)) inside k.free address
      (IsNew-of p a6 k.not_mapped k.not_dormant) refl refl refl refl
      (find_off-here d (delete_off d.off p.by4)) (λ off n. find_off-replaced d off p.by4 n) refl
      (sym (delete6_absent a6 p.mapped k.not_mapped))

read_entry-IsPool :
    (reserved : Addr4 → Bool) (now : ℕ) (r : Reader) (a4 : Addr4) (a6 : Addr6) (last : ℕ)
    → IsPool r.pool
    → IsAddr4 a4
    → IsPool (read_entry reserved now r a4 a6 last).pool
unfolding read_entry
read_entry-IsPool reserved now r a4 a6 last h bytes =
    elim (Bool-cases (is_skipped reserved r.pool a4 a6 last)) [
      | inl k ↦ rw k h
      | inr k ↦ rw k (
          with_dormant-IsPool reserved r.pool a4 a6 last h bytes
            (accepted reserved r.pool a4 a6 last k))
    ]

read_addrs-IsPool :
    (reserved : Addr4 → Bool) (now : ℕ) (r : Reader) (x y : Option Addr) (n : Option ℕ)
    → IsPool r.pool
    → ((a : Addr4) → x ≡ some (v4 a) → IsAddr4 a)
    → IsPool (read_addrs reserved now r x y n).pool
read_addrs-IsPool reserved now r (some (v4 a)) (some (v6 b)) (some last) h bytes =
    read_entry-IsPool reserved now r a b last h (bytes a refl)
read_addrs-IsPool reserved now r (some (v4 a)) (some (v6 b)) none h bytes = h
read_addrs-IsPool reserved now r (some (v4 a)) (some (v4 b)) n h bytes = h
read_addrs-IsPool reserved now r (some (v4 a)) (some zero_addr) n h bytes = h
read_addrs-IsPool reserved now r (some (v4 a)) none n h bytes = h
read_addrs-IsPool reserved now r (some (v6 a)) y n h bytes = h
read_addrs-IsPool reserved now r (some zero_addr) y n h bytes = h
read_addrs-IsPool reserved now r none y n h bytes = h

module _ {T : Type 0} (t : Texts T) (parser : IsParser t) (reserved : Addr4 → Bool) (now : ℕ) where
  read_line-IsPool :
      (r : Reader) (l : List T) → IsPool r.pool → IsPool (read_line t reserved now r l).pool
  unfolding read_line
  read_line-IsPool r [] h = h
  read_line-IsPool r (a ∷ []) h = h
  read_line-IsPool r (a ∷ b ∷ []) h = h
  read_line-IsPool r (a ∷ b ∷ c ∷ d ∷ l) h = h
  read_line-IsPool r (a ∷ b ∷ c ∷ []) h = elim (Bool-cases (t.is_comment a)) [
    | inl k ↦ rw k h
    | inr k ↦ rw k (
        read_addrs-IsPool reserved now r (t.parse_addr a) (t.parse_addr b) (t.parse_int c) h
          (parser.bytes a))
  ]

  read_lines-IsPool :
      (r : Reader) (ls : List (List T))
      → IsPool r.pool
      → IsPool (read_lines t reserved now r ls).pool
  unfolding read_lines
  read_lines-IsPool r [] h = h
  read_lines-IsPool r (l ∷ ls) h =
      read_lines-IsPool (read_line t reserved now r l) ls (read_line-IsPool r l h)

settle_host-IsPool :
    (now : ℕ) (future : Bool) (p : Pool) (off : ℕ)
    → IsPool p
    → IsPool (settle_host now future p off)
unfolding settle_host
settle_host-IsPool now future p off h = elim (Option-cases (find_off off p.by4)) [
  | inl k ↦ rw (settle_host, k) h
  | inr (d, k) ↦ elim (Bool-cases future) [
    | inl f ↦ rw (settle_host, k) (rw f (touch-IsPool p d (now - p.min_lease) h (at_own p off d k)))
    | inr f ↦ elim (Bool-cases (leb now (d.last_use + p.min_lease))) [
      | inl l ↦
          rw (settle_host, k) (rw f (rw l (reactivate-IsPool p d d.last_use h (at_own p off d k))))
      | inr l ↦ rw (settle_host, k) (rw f (rw l h))
    ]
  ]
]

settle-IsPool :
    (now : ℕ) (future : Bool) (p : Pool) (offs : List ℕ)
    → IsPool p
    → IsPool (settle now future p offs)
unfolding settle
settle-IsPool now future p [] h = h
settle-IsPool now future p (off ∷ offs) h =
    settle-IsPool now future (settle_host now future p off) offs
      (settle_host-IsPool now future p off h)

-- The pool that `read` leaves has the invariant, if the one that it started from has it, for any
-- lines, and whether or not the scanner failed after them. The parser gives addresses of bytes.
pub read-IsPool :
    {T : Type 0} (t : Texts T) (parser : IsParser t) (reserved : Addr4 → Bool) (now : ℕ) (p : Pool)
    (ls : List (List T)) (failed : Bool)
    → IsPool p
    → IsPool (read t reserved now p ls failed).1
unfolding read
read-IsPool t parser reserved now p ls failed h =
    let r = read_lines t reserved now (start_reader p) ls in
    let loop = read_lines-IsPool t parser reserved now (start_reader p) ls h in
    elim (Bool-cases failed) [
      | inl k ↦ rw k loop
      | inr k ↦ rw k (settle-IsPool now r.future r.pool r.loaded loop)
    ]
