-- ===== src/Xlate/V6/Generated.antt =====
-- The ICMPv6 messages that the translator makes are well formed.
use clatto.Base.{
  ℕ, ◌+◌, ◌-◌, ◌≤◌, ◌<◌, ◌≡◌, refl, arith, true, ◌++◌, Bytes, IsBytes, IsByte, length, byte_at,
  take, drop, slice, put16, All-append, All-take, length-append, length-take, get_or-append,
  slice-append, ap, u8, drop-append_length, bit_or, bit_or_fields, ◌<<<◌, ◌>>>◌,
}
use clatto.Xlate.Checksum.{checksum, verify, pseudo6}
use clatto.Xlate.Checksum.Update.{length-put16}
use clatto.Xlate.Checksum.Pseudo.{pseudo6-Pseudo}
use clatto.Xlate.Packet.{ip6_payload_len, proto_icmp6}
use clatto.Xlate.V4.Icmp.{icmp_body}
use clatto.Xlate.V4.Generated.{icmp_body-verify, length-icmp_body}
use clatto.Xlate.V6.Icmp.{icmp6_packet, icmp6_header}

-- The pseudo-header sum of an IPv6 packet with an ICMPv6 payload.
abbrev pub pseudo_of_packet : Bytes → ℕ
pseudo_of_packet b = pseudo6 (slice 8 24 b) (slice 24 40 b) (length b - 40) proto_icmp6

-- An IPv6 packet with an ICMPv6 message, the checksum of which verifies.
pub record IsIcmp6 (b : Bytes) : Type 0 where
  pub version : byte_at b 0 >>> 4 ≡ 6
  pub protocol : byte_at b 6 ≡ proto_icmp6
  pub exact : 40 + ip6_payload_len b ≡ length b
  pub message_valid : verify (drop 40 b) (pseudo_of_packet b) ≡ true

-- A header of 40 bytes before an ICMPv6 message whose checksum is stored for it.
pub header_message :
    (h : Bytes) (typ code word : ℕ) (payload : Bytes)
    → IsBytes h
    → length h ≡ 40
    → byte_at h 0 >>> 4 ≡ 6
    → byte_at h 6 ≡ proto_icmp6
    → ip6_payload_len h ≡ 8 + length payload
    → typ < 256
    → code < 256
    → IsBytes payload
    → 8 + length payload < 65536
    → let ic = icmp_body typ code word payload in
      IsIcmp6 (
        h
        ++ put16 ic 2
            (checksum ic (pseudo6 (slice 8 24 h) (slice 24 40 h) (8 + length payload) proto_icmp6)))
header_message h typ code word payload hh lh hv hp he ht hc hpl fits =
    let ic = icmp_body typ code word payload in
    let extra = pseudo6 (slice 8 24 h) (slice 24 40 h) (8 + length payload) proto_icmp6 in
    let body = put16 ic 2 (checksum ic extra) in
    let small =
      pseudo6-Pseudo h (8 + length payload) proto_icmp6 hh (omega (arith, lh)) fits (omega arith) in
    let len : length (h ++ body) ≡ 48 + length payload = omega (
      arith,
      length-append h body,
      lh,
      length-put16 ic 2 (checksum ic extra),
      length-icmp_body typ code word payload,
    ) in
    let at = λ (i : ℕ) (k : i < 40). get_or-append h body i 0 (omega (arith, lh)) in
    let same : pseudo_of_packet (h ++ body) ≡ extra =
      rw
        (
          slice-append 8 16 h body (omega (arith, lh)),
          slice-append 24 16 h body (omega (arith, lh)),
          len,
        )
        (ap (λ n. pseudo6 (slice 8 24 h) (slice 24 40 h) n proto_icmp6) (omega arith)) in
    record {
      version = rw (at 0 (omega arith)) hv;
      protocol = rw (at 6 (omega arith)) hp;
      exact = omega (arith, at 4 (omega arith), at 5 (omega arith), he, len);
      message_valid =
          rw (same, drop-append_length 40 h body lh)
            (icmp_body-verify typ code word extra payload ht hc hpl (omega arith)
              (omega (arith, small.pseudo_small)));
    }

module _ (tc len : ℕ) (src dst : Bytes) (hs : IsBytes src) (hd : IsBytes dst) (ls : 16 ≤ length src)
    (ld : 16 ≤ length dst) where
  addresses-IsBytes : IsBytes (take 16 src ++ take 16 dst)
  addresses-IsBytes = All-append IsByte _ _ (All-take IsByte 16 src hs) (All-take IsByte 16 dst hd)

  header-IsBytes : IsBytes (icmp6_header tc len src dst)
  header-IsBytes = (
    omega arith,
    (
      omega arith,
      (
        omega arith,
        (
          omega arith,
          (omega arith, (omega arith, (omega arith, (omega arith, addresses-IsBytes)))),
        ),
      ),
    ),
  )

  length-header : length (icmp6_header tc len src dst) ≡ 40
  length-header =
      omega
        (arith, length-append (take 16 src) (take 16 dst), length-take 16 src, length-take 16 dst)

-- The version and the traffic class in the first word.
pub first_byte : (tc : ℕ) → tc < 256 → u8 (bit_or (6 <<< 28) (tc <<< 20) >>> 24) >>> 4 ≡ 6
first_byte tc h = omega (arith, bit_or_fields 28 6 (tc <<< 20) (omega arith))

-- Every message of less than 65536 bytes that `sendICMPv6` writes has the version and the payload length of its packet, and an
-- ICMPv6 checksum that verifies.
pub icmp6_packet-IsIcmp6 :
    (tc : ℕ) (src dst : Bytes) (typ code word : ℕ) (payload : Bytes)
    → tc < 256
    → IsBytes src
    → 16 ≤ length src
    → IsBytes dst
    → 16 ≤ length dst
    → typ < 256
    → code < 256
    → IsBytes payload
    → 8 + length payload < 65536
    → IsIcmp6 (icmp6_packet tc src dst typ code word payload)
unfolding icmp6_packet
icmp6_packet-IsIcmp6 tc src dst typ code word payload htc hs ls hd ld ht hc hp fits =
    let h = icmp6_header tc (length payload) src dst in
    let n : 40 + 8 + length payload - 40 ≡ 8 + length payload = omega arith in
    rw n (
      header_message h typ code word payload
        (header-IsBytes tc (length payload) src dst hs hd ls ld)
        (length-header tc (length payload) src dst hs hd ls ld) (first_byte tc htc) refl
        (omega arith) ht hc hp fits)
