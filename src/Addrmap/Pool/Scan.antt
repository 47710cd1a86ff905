-- ===== src/Addrmap/Pool/Scan.antt =====
-- What the scan of `assign` finds.
use clatto.Base.{
  ℕ, ==_iff, subst, zero, suc, ◌+◌, ◌<◌, ◌≤◌, ◌≡◌, ◌==◌, arith, Bool, false, Bool-cases, inl, inr,
  some, none, bit_and, u32,
}
use clatto.Netutil.{Addr4}
use clatto.Addrmap.Pool.{Pool, is_used, addr_of}
use clatto.Addrmap.Pool.Assign.{scan_free}

-- An offset that may be handed out.
pub record IsFree (reserved : Addr4 → Bool) (p : Pool) (off : ℕ) : Type 0 where
  pub nonzero : (off == 0) ≡ false
  pub unused : is_used p.used off ≡ false
  pub allowed : reserved (addr_of p off) ≡ false

abbrev pub candidate : Pool → ℕ → ℕ → ℕ
candidate p h i = bit_and (u32 (h + i)) p.max

-- The scan takes the first free offset of its rounds.
pub scan_free-IsFree :
    (reserved : Addr4 → Bool) (p : Pool) (h left i off : ℕ)
    → scan_free reserved p h left i ≡ some off
    → IsFree reserved p off
unfolding scan_free
scan_free-IsFree reserved p h zero i off e = ground arith
scan_free-IsFree reserved p h (suc left) i off e =
    ground (arith, scan_free-IsFree reserved p h left (i + 1) off)

scan_round :
    (reserved : Addr4 → Bool) (p : Pool) (h left i : ℕ)
    → scan_free reserved p h (suc left) i ≡ none
    → (¬ IsFree reserved p (candidate p h i)) × (scan_free reserved p h left (i + 1) ≡ none)
unfolding scan_free
scan_round reserved p h left i e = ground arith

-- Where the scan gives up, none of its rounds has a free offset.
pub scan_free-none :
    (reserved : Addr4 → Bool) (p : Pool) (h left i k : ℕ)
    → scan_free reserved p h left i ≡ none
    → i ≤ k
    → k < i + left
    → ¬ IsFree reserved p (candidate p h k)
scan_free-none reserved p h zero i k e low high = absurd (omega arith)
scan_free-none reserved p h (suc left) i k e low high =
    let (here, rest) = scan_round reserved p h left i e in
    elim (Bool-cases (i == k)) [
      | inl q ↦
          let same : i ≡ k = (==_iff i k).0 q in
          subst (λ j. ¬ IsFree reserved p (candidate p h j)) same here
      | inr q ↦ scan_free-none reserved p h left (i + 1) k rest (ground arith) (omega arith)
    ]
