-- ===== src/Xlate/V4/Echo.antt =====
-- ICMPv4 echo messages keep a valid checksum on their way to ICMPv6.
use clatto.Base.{
  ℕ, ◌+◌, ◌-◌, ◌*◌, ◌%◌, ◌≤◌, ◌<◌, ◌^◌, ◌≡◌, ◌↔◌, ◌∙◌, ◌⊎◌, inl, inr, refl, ap, arith, true, Bytes,
  IsBytes, IsByte, length, slice, byte_at, be16, set, put16, [], ◌∷◌, All-set, length-set, not16,
  u64,
}
use clatto.Xlate.Checksum.{verify, pseudo6, fold}
use clatto.Xlate.Checksum.Fold.{ones_sum, fold-ones_sum}
use clatto.Xlate.Checksum.Sums.{word_sum}
use clatto.Xlate.Checksum.Update.{verify_iff, word_sum-put16, put16-IsBytes, length-put16, be16-lt}
use clatto.Xlate.Checksum.Pseudo.{pseudo6-Pseudo}
use clatto.Xlate.Packet.{Pkt, ip4_total_len, proto_icmp6}
use clatto.Xlate.V4.Payload.{echo4to6}

-- The first byte is the high byte of the first word.
pub word_sum-set :
    (b : Bytes) (v : ℕ)
    → 2 ≤ length b
    → word_sum (set b 0 v) + byte_at b 0 * 256 ≡ word_sum b + v * 256
word_sum-set [] v l = absurd (omega arith)
word_sum-set (x ∷ []) v l = absurd (omega arith)
word_sum-set (x ∷ y ∷ b) v l = omega arith

pub be16-set : (b : Bytes) (v : ℕ) → be16 (set b 0 v) 2 ≡ be16 b 2
be16-set [] v = refl
be16-set (x ∷ b) v = refl

pub first-le-word_sum :
    (b : Bytes) → IsBytes b → 4 ≤ length b → byte_at b 0 * 256 + be16 b 2 ≤ word_sum b
first-le-word_sum [] h l = omega arith
first-le-word_sum (x ∷ []) h l = omega arith
first-le-word_sum (x ∷ y ∷ []) h l = omega arith
first-le-word_sum (x ∷ y ∷ z ∷ []) h l = absurd (omega arith)
first-le-word_sum (x ∷ y ∷ z ∷ w ∷ b) h l = omega arith

-- The arithmetic: `w` is the sum before, of which `typ * 256` and `old` are the type and the
-- checksum.
echo_sum :
    (w old typ typ' ps v : ℕ)
    → old < 65536
    → typ * 256 + old ≤ w
    → typ ≤ typ'
    → 0 < ps
    → ones_sum w ≡ 65535
    → v ≡ 65535 - ones_sum ((65535 - old) + ps + (typ' - typ) * 256)
    → ones_sum (ps + (w - typ * 256 + typ' * 256 - old + v)) ≡ 65535
echo_sum w old typ typ' ps v ho l t hp valid e = ground arith

-- What the message with a changed type and a new checksum sums up to.
pub echo_stored :
    (b : Bytes) (typ' v extra : ℕ)
    → IsBytes b
    → typ' < 256
    → v < 65536
    → 4 ≤ length b
    → length b < 65536
    → extra ≤ 2 ^ 40
    → (verify (put16 (set b 0 typ') 2 v) extra ≡ true)
      ↔ (ones_sum (extra + (word_sum b - byte_at b 0 * 256 + typ' * 256 - be16 b 2 + v)) ≡ 65535)
echo_stored b typ' v extra h ht hv l fits small =
    let c = set b 0 typ' in
    let hc : IsBytes c = All-set IsByte b 0 typ' ht h in
    let lc : length c ≡ length b = length-set b 0 typ' in
    let same : word_sum (put16 c 2 v) ≡ word_sum b - byte_at b 0 * 256 + typ' * 256 - be16 b 2 + v =
      omega (
        arith,
        word_sum-put16 2 c v hv refl (omega (arith, lc)),
        word_sum-set b typ' (omega arith),
        be16-set b typ',
        first-le-word_sum b h l,
      ) in
    rw (← same) (
      verify_iff (put16 c 2 v) extra (put16-IsBytes c 2 v hc)
        (omega (arith, length-put16 c 2 v, lc)))

was_valid :
    (b : Bytes) → IsBytes b → length b < 65536 → verify b 0 ≡ true → ones_sum (word_sum b) ≡ 65535
was_valid b h fits v = ap ones_sum (omega arith) ∙ (verify_iff b 0 h (omega arith)).0 v

echo_message :
    (b : Bytes) (typ typ' ps delta : ℕ)
    → IsBytes b
    → 4 ≤ length b
    → length b < 65536
    → byte_at b 0 ≡ typ
    → typ' < 256
    → typ * 256 + delta ≡ typ' * 256
    → ps ≤ 2 ^ 40
    → 0 < ps
    → verify b 0 ≡ true
    → verify (put16 (set b 0 typ') 2 (not16 (fold (u64 (not16 (be16 b 2) + ps + delta))))) ps ≡ true
echo_message b typ typ' ps delta h l fits e ht d small pos v =
    let sum = (65535 - be16 b 2) + ps + delta in
    let folded : fold (sum % 2 ^ 64) ≡ ones_sum sum =
      fold-ones_sum (sum % 2 ^ 64) (omega arith) ∙ ap ones_sum (omega arith) in
    let split = first-le-word_sum b h l in
    (echo_stored b typ' (65535 - fold (sum % 2 ^ 64)) ps h ht (omega arith) l fits small).1 (
      echo_sum (word_sum b) (be16 b 2) (byte_at b 0) typ' ps (65535 - fold (sum % 2 ^ 64))
        (be16-lt b 2 h) split (omega arith) pos (was_valid b h fits v)
        (ap (λ (n : ℕ). 65535 - n) (folded ∙ ap ones_sum (omega arith))))

-- What `handleIPv4` has checked of an echo message, and the new header.
pub record EchoReady4 (p : Pkt) (h : Bytes) : Type 0 where
  pub payload_bytes : IsBytes p.payload
  pub payload_long : 8 ≤ length p.payload
  pub payload_fits : length p.payload < 65536
  pub header_bytes : IsBytes h
  pub header_long : 40 ≤ length h
  pub exact : ip4_total_len p.ip ≡ p.hdr_len + length p.payload

-- An echo request or reply of 8 to 65535 bytes with a valid ICMPv4 checksum becomes one with a valid ICMPv6 checksum for
-- the addresses of the new header.
pub echo4to6-verify :
    (p : Pkt) (h : Bytes)
    → EchoReady4 p h
    → (byte_at p.payload 0 ≡ 8) ⊎ (byte_at p.payload 0 ≡ 0)
    → verify p.payload 0 ≡ true
    → verify (echo4to6 p h) (pseudo6 (slice 8 24 h) (slice 24 40 h) (length p.payload) proto_icmp6)
      ≡ true
unfolding echo4to6
echo4to6-verify p h w kind v =
    let ps = pseudo6 (slice 8 24 h) (slice 24 40 h) (length p.payload) proto_icmp6 in
    let same =
      pseudo6-Pseudo h (length p.payload) proto_icmp6 w.header_bytes w.header_long w.payload_fits
        (omega arith) in
    let len : ip4_total_len p.ip - p.hdr_len ≡ length p.payload = omega (arith, w.exact) in
    let pos : 0 < ps = ground (arith, same.same) in
    let small : ps ≤ 2 ^ 40 = omega (arith, same.pseudo_small) in
    rw len (elim kind [
      | inl e ↦ rw e (
          echo_message p.payload 8 128 ps _ w.payload_bytes (omega (arith, w.payload_long))
            w.payload_fits e (omega arith) refl small pos v)
      | inr e ↦ rw e (
          echo_message p.payload 0 129 ps _ w.payload_bytes (omega (arith, w.payload_long))
            w.payload_fits e (omega arith) refl small pos v)
    ])
