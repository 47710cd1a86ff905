-- ===== src/Netutil/Embedding.antt =====
-- RFC 6052: `Embed` and `Extract` are inverse.
use clatto.Base.{ℕ, ◌≡◌, ◌≤◌, ◌<◌, ◌↔◌, arith, true, false, inl, inr, Result-cases, ok, err}
use clatto.Netutil.{Addr4, Addr6, embed, extract, valid_prefix_len, invalid_prefix_len, panics}

-- What an embedding puts into an address can be extracted again, at each legal prefix length.
pub extract-embed :
    (p : Addr6) (n : ℕ) (v : Addr4) (a : Addr6) → embed p n v ≡ ok a → extract a n ≡ ok v
unfolding embed extract
extract-embed p n v a h = ground arith

-- An address from which an IPv4 address is extracted is the embedding of that IPv4 address in the
-- address itself, taken as a prefix of the same length.
pub embed-extract : (a : Addr6) (n : ℕ) (v : Addr4) → extract a n ≡ ok v → embed a n v ≡ ok a
unfolding embed extract
embed-extract a n v h = ground arith

embed-ok :
    (p : Addr6) (n : ℕ) (v : Addr4) → valid_prefix_len n ≡ true → (a : Addr6) × (embed p n v ≡ ok a)
unfolding embed valid_prefix_len
embed-ok p n v h = elim (Result-cases (embed p n v)) [
  | inl k ↦ k
  | inr (e, k) ↦ absurd (ground (arith, h, k))
]

embed_valid :
    (p : Addr6) (n : ℕ) (v : Addr4) (a : Addr6) → embed p n v ≡ ok a → valid_prefix_len n ≡ true
unfolding embed valid_prefix_len
embed_valid p n v a h = ground arith

-- `Embed` gives an address exactly at a prefix length that RFC 6052 allows, fails with
-- `ErrInvalidPrefixLen` exactly at another one below 136, and panics exactly from 136 on.
pub embed-valid_prefix_len :
    (p : Addr6) (n : ℕ) (v : Addr4)
    → ((valid_prefix_len n ≡ true) ↔ ((a : Addr6) × (embed p n v ≡ ok a)))
      × (((valid_prefix_len n ≡ false) × (n < 136)) ↔ (embed p n v ≡ err invalid_prefix_len))
      × ((136 ≤ n) ↔ (embed p n v ≡ err panics))
unfolding embed valid_prefix_len
embed-valid_prefix_len p n v =
    ((embed-ok p n v, λ k. embed_valid p n v k.0 k.1), ground arith, ground arith)
