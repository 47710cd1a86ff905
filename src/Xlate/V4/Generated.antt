-- ===== src/Xlate/V4/Generated.antt =====
-- The ICMPv4 messages that the translator makes are well formed.
use clatto.Base.{
  ℕ, ◌+◌, ◌≤◌, ◌<◌, ◌^◌, ◌≡◌, ◌∙◌, refl, arith, true, ◌++◌, Bytes, IsBytes, IsByte, length, byte_at,
  take, drop, put16, All-append, All-take, length-append, length-take, take-append_length,
  drop-append_length,
}
use clatto.Xlate.Checksum.{checksum, verify}
use clatto.Xlate.Checksum.Update.{verify-checksum, length-put16}
use clatto.Xlate.Packet.{ip4_total_len, proto_icmp}
use clatto.Xlate.V4.Icmp.{icmp4_packet, icmp4_header, icmp_body}

-- An IPv4 packet with a header of 20 bytes, the checksum of which verifies, and an ICMP message, the
-- checksum of which does.
pub record IsIcmp4 (b : Bytes) : Type 0 where
  pub version : byte_at b 0 ≡ 0x45
  pub protocol : byte_at b 9 ≡ proto_icmp
  pub exact : ip4_total_len b ≡ length b
  pub header_valid : verify (take 20 b) 0 ≡ true
  pub message_valid : verify (drop 20 b) 0 ≡ true

pub length-icmp_body :
    (typ code word : ℕ) (payload : Bytes)
    → length (icmp_body typ code word payload) ≡ 8 + length payload
length-icmp_body typ code word payload = omega arith

pub icmp_body-IsBytes :
    (typ code word : ℕ) (payload : Bytes)
    → typ < 256
    → code < 256
    → IsBytes payload
    → IsBytes (icmp_body typ code word payload)
icmp_body-IsBytes typ code word payload ht hc h = (
  ht,
  (hc, (omega arith, (omega arith, (omega arith, (omega arith, (omega arith, (omega arith, h))))))),
)

-- A message with its checksum stored verifies, with any pseudo-header sum.
pub icmp_body-verify :
    (typ code word extra : ℕ) (payload : Bytes)
    → typ < 256
    → code < 256
    → IsBytes payload
    → length payload < 65536
    → extra ≤ 2 ^ 40
    → verify
        (put16
          (icmp_body typ code word payload)
          2
          (checksum (icmp_body typ code word payload) extra))
        extra
      ≡ true
icmp_body-verify typ code word extra payload ht hc h l le =
    verify-checksum (icmp_body typ code word payload) 2 extra
      (icmp_body-IsBytes typ code word payload ht hc h) (omega arith) refl (omega arith) refl

module _ (tos n : ℕ) (src dst : Bytes) (hs : IsBytes src) (hd : IsBytes dst) (ls : 4 ≤ length src)
    (ld : 4 ≤ length dst) where
  addresses-IsBytes : IsBytes (take 4 src ++ take 4 dst)
  addresses-IsBytes = All-append IsByte _ _ (All-take IsByte 4 src hs) (All-take IsByte 4 dst hd)

  length-addresses : length (take 4 src ++ take 4 dst) ≡ 8
  length-addresses =
      omega (arith, length-append (take 4 src) (take 4 dst), length-take 4 src, length-take 4 dst)

  header-IsBytes : tos < 256 → IsBytes (icmp4_header tos n src dst)
  header-IsBytes h = (
    omega arith,
    (
      h,
      (
        omega arith,
        (
          omega arith,
          (
            omega arith,
            (
              omega arith,
              (
                omega arith,
                (
                  omega arith,
                  (omega arith, (omega arith, (omega arith, (omega arith, addresses-IsBytes)))),
                ),
              ),
            ),
          ),
        ),
      ),
    ),
  )

  length-header : length (icmp4_header tos n src dst) ≡ 20
  length-header = omega (arith, length-addresses)

  header-verify :
      tos < 256
      → verify (put16 (icmp4_header tos n src dst) 10 (checksum (icmp4_header tos n src dst) 0)) 0
        ≡ true
  header-verify h =
      verify-checksum (icmp4_header tos n src dst) 10 0 (header-IsBytes h)
        (omega (arith, length-header)) refl (omega (arith, length-header)) refl

-- Every message of at most 65535 bytes that `sendICMPv4` writes has a header checksum and an ICMP checksum that verify, and
-- the right total length.
pub icmp4_packet-IsIcmp4 :
    (tos : ℕ) (src dst : Bytes) (typ code word : ℕ) (payload : Bytes)
    → tos < 256
    → IsBytes src
    → 4 ≤ length src
    → IsBytes dst
    → 4 ≤ length dst
    → typ < 256
    → code < 256
    → IsBytes payload
    → 28 + length payload < 65536
    → IsIcmp4 (icmp4_packet tos src dst typ code word payload)
unfolding icmp4_packet
icmp4_packet-IsIcmp4 tos src dst typ code word payload hto hs ls hd ld ht hc hp fits =
    let h = icmp4_header tos (20 + 8 + length payload) src dst in
    let ic = icmp_body typ code word payload in
    let sealed = put16 h 10 (checksum h 0) in
    let body = put16 ic 2 (checksum ic 0) in
    let ls20 : length sealed ≡ 20 =
      length-put16 h 10 (checksum h 0)
      ∙ length-header tos (20 + 8 + length payload) src dst hs hd ls ld in
    record {
      version = refl;
      protocol = refl;
      exact = omega (
        arith,
        length-append sealed body,
        ls20,
        length-put16 ic 2 (checksum ic 0),
        length-icmp_body typ code word payload,
      );
      header_valid =
          rw (take-append_length 20 sealed body ls20)
            (header-verify tos (20 + 8 + length payload) src dst hs hd ls ld hto);
      message_valid =
          rw (drop-append_length 20 sealed body ls20)
            (icmp_body-verify typ code word 0 payload ht hc hp (omega arith) (omega arith));
    }
