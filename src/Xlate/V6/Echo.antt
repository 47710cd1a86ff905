-- ===== src/Xlate/V6/Echo.antt =====
-- ICMPv6 echo messages on their way to ICMPv4: which of them keep a valid checksum.
use clatto.Base.{
  ℕ, ◌+◌, ◌-◌, ◌*◌, ◌%◌, ◌≤◌, ◌<◌, ◌^◌, ◌≡◌, ◌↔◌, ◌∙◌, ◌⊎◌, inl, inr, refl, ap, arith, true, false,
  Bytes, IsBytes, length, slice, byte_at, be16, set, put16, not16, u64, Bool-cases, ltb, ltb_iff,
}
use clatto.Xlate.Checksum.{verify, pseudo6, fold}
use clatto.Xlate.Checksum.Fold.{ones_sum, fold-ones_sum}
use clatto.Xlate.Checksum.Sums.{word_sum}
use clatto.Xlate.Checksum.Update.{verify_iff, be16-lt}
use clatto.Xlate.Checksum.Pseudo.{pseudo6-Pseudo}
use clatto.Xlate.Packet.{Pkt, ip6_payload_len, proto_icmp6}
use clatto.Xlate.V4.Echo.{echo_stored, first-le-word_sum}
use clatto.Xlate.V6.Payload.{echo6to4}

-- The new checksum before it is complemented.
abbrev inverse_sum : ℕ → ℕ → ℕ → ℕ
inverse_sum old ps delta = (65535 - old) + (65535 - ones_sum ps) + (65535 - delta)

-- The arithmetic, where `rest` is the sum of all words but the checksum, with the new type.
echo_sum :
    (rest old ps delta v : ℕ)
    → old < 65536
    → delta < 65535
    → ones_sum (ps + (rest + delta + old)) ≡ 65535
    → v ≡ 65535 - ones_sum (inverse_sum old ps delta)
    → (0 < rest → ones_sum (rest + v) ≡ 65535) × (rest ≡ 0 → ones_sum (rest + v) ≡ 0)
echo_sum rest old ps delta v ho hd valid e = ground arith

-- What `handleIPv6` has checked of an echo message.
pub record EchoReady6 (p : Pkt) : Type 0 where
  pub payload_bytes : IsBytes p.payload
  pub payload_long : 8 ≤ length p.payload
  pub payload_fits : length p.payload < 65536
  pub ip_bytes : IsBytes p.ip
  pub ip_long : 40 ≤ length p.ip
  pub exact : ip6_payload_len p.ip ≡ p.hdr_len + length p.payload

abbrev pub pseudo_icmp6 : Pkt → ℕ
pseudo_icmp6 p = pseudo6 (slice 8 24 p.ip) (slice 24 40 p.ip) (length p.payload) proto_icmp6

folded :
    (old ps delta : ℕ)
    → old < 65536
    → ps < 2 ^ 64
    → fold (u64 (not16 old + not16 (fold ps) + not16 delta)) ≡ ones_sum (inverse_sum old ps delta)
folded old ps delta ho hp =
    rw (fold-ones_sum ps hp)
      (fold-ones_sum (inverse_sum old ps delta % 2 ^ 64) (omega arith) ∙ ap ones_sum (omega arith))

-- The sum of the words of `b` but the checksum, with the new type.
abbrev pub rest_of : Bytes → ℕ → ℕ
rest_of b typ' = word_sum b - byte_at b 0 * 256 + typ' * 256 - be16 b 2

echo_message :
    (b : Bytes) (typ typ' ps delta : ℕ)
    → IsBytes b
    → 4 ≤ length b
    → length b < 65536
    → byte_at b 0 ≡ typ
    → typ' * 256 + delta ≡ typ * 256
    → typ < 256
    → delta < 65535
    → ps ≤ 2 ^ 40
    → verify b ps ≡ true
    → (verify
          (put16
            (set b 0 typ')
            2
            (not16 (fold (u64 (not16 (be16 b 2) + not16 (fold ps) + not16 delta)))))
          0
        ≡ true)
      ↔ (0 < rest_of b typ')
echo_message b typ typ' ps delta h l fits e d ht hd small valid =
    let old = be16 b 2 in
    let v = not16 (fold (u64 (not16 old + not16 (fold ps) + not16 delta))) in
    let v_lem : v ≡ 65535 - ones_sum (inverse_sum old ps delta) =
      ap (λ (n : ℕ). 65535 - n) (folded old ps delta (be16-lt b 2 h) (omega arith)) in
    let split = first-le-word_sum b h l in
    let was : ones_sum (ps + (rest_of b typ' + delta + old)) ≡ 65535 =
      ap ones_sum (omega arith) ∙ (verify_iff b ps h (omega arith)).0 valid in
    let sums = echo_sum (rest_of b typ') old ps delta v (be16-lt b 2 h) hd was v_lem in
    let stored =
      echo_stored b typ' v 0 h (omega arith) (omega (arith, v_lem)) l fits (omega arith) in
    ground (arith, sums, stored, add_zero (rest_of b typ' + v))
  where
    add_zero : (n : ℕ) → 0 + n ≡ n
    add_zero n = omega arith

-- A reply all of whose other words are zero.
abbrev pub IsBlankReply : Bytes → Type 0
IsBlankReply b = (byte_at b 0 ≡ 129) × (word_sum b ≡ 129 * 256 + be16 b 2)

echo6to4-request :
    (p : Pkt)
    → EchoReady6 p
    → byte_at p.payload 0 ≡ 128
    → verify p.payload (pseudo_icmp6 p) ≡ true
    → verify (echo6to4 p) 0 ≡ true
unfolding echo6to4
echo6to4-request p w e v =
    let same =
      pseudo6-Pseudo p.ip (length p.payload) proto_icmp6 w.ip_bytes w.ip_long w.payload_fits
        (omega arith) in
    let len : ip6_payload_len p.ip - p.hdr_len ≡ length p.payload = omega (arith, w.exact) in
    let l : 4 ≤ length p.payload = omega (arith, w.payload_long) in
    rw (len, e)
      ((echo_message p.payload 128 8 (pseudo_icmp6 p) 30720 w.payload_bytes l w.payload_fits e refl
          (omega arith) (omega arith) (omega (arith, same.pseudo_small)) v).1
        (omega (arith, first-le-word_sum p.payload w.payload_bytes l)))

echo6to4-reply_iff :
    (p : Pkt)
    → EchoReady6 p
    → byte_at p.payload 0 ≡ 129
    → verify p.payload (pseudo_icmp6 p) ≡ true
    → (verify (echo6to4 p) 0 ≡ true) ↔ (0 < rest_of p.payload 0)
unfolding echo6to4
echo6to4-reply_iff p w e v =
    let same =
      pseudo6-Pseudo p.ip (length p.payload) proto_icmp6 w.ip_bytes w.ip_long w.payload_fits
        (omega arith) in
    let len : ip6_payload_len p.ip - p.hdr_len ≡ length p.payload = omega (arith, w.exact) in
    let l : 4 ≤ length p.payload = omega (arith, w.payload_long) in
    rw (len, e)
      (rw e at (
        echo_message p.payload 129 0 (pseudo_icmp6 p) 33024 w.payload_bytes l w.payload_fits e refl
          (omega arith) (omega arith) (omega (arith, same.pseudo_small)) v))

not_blank :
    (p : Pkt)
    → EchoReady6 p
    → byte_at p.payload 0 ≡ 129
    → ¬ IsBlankReply p.payload
    → 0 < rest_of p.payload 0
not_blank p w e nb =
    let l : 4 ≤ length p.payload = omega (arith, w.payload_long) in
    let split = first-le-word_sum p.payload w.payload_bytes l in
    elim (Bool-cases (ltb 0 (rest_of p.payload 0))) [
      | inl h ↦ (ltb_iff _ _).0 h
      | inr h ↦ absurd (nb (e, ground (arith, split)))
    ]

-- An echo request or reply of 8 to 65535 bytes with a valid ICMPv6 checksum becomes one with a valid ICMPv4 checksum,
-- if it is not a reply all of whose words but the type and the checksum are zero.
pub echo6to4-verify :
    (p : Pkt)
    → EchoReady6 p
    → (byte_at p.payload 0 ≡ 128) ⊎ (byte_at p.payload 0 ≡ 129)
    → ¬ IsBlankReply p.payload
    → verify p.payload (pseudo_icmp6 p) ≡ true
    → verify (echo6to4 p) 0 ≡ true
echo6to4-verify p w (inl e) nb v = echo6to4-request p w e v
echo6to4-verify p w (inr e) nb v = (echo6to4-reply_iff p w e v).1 (not_blank p w e nb)

-- A valid ICMPv6 echo reply all of whose words but the type and the checksum are zero becomes an
-- ICMPv4 message whose checksum does not verify.
pub echo6to4-blank :
    (p : Pkt)
    → EchoReady6 p
    → IsBlankReply p.payload
    → verify p.payload (pseudo_icmp6 p) ≡ true
    → verify (echo6to4 p) 0 ≡ false
echo6to4-blank p w blank v =
    let reply = echo6to4-reply_iff p w blank.0 v in
    elim (Bool-cases (verify (echo6to4 p) 0)) [
      | inl h ↦ absurd (omega (arith, reply.0 h, blank.0, blank.1))
      | inr h ↦ h
    ]
