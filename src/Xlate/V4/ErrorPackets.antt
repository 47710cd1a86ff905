-- ===== src/Xlate/V4/ErrorPackets.antt =====
-- The ICMPv6 errors that `xlate4to6ICMPError` sends are well formed.
use clatto.Base.{
  ℕ, ◌+◌, ◌-◌, ◌<◌, ◌≡◌, refl, sym, subst, arith, ◌++◌, Bytes, IsBytes, IsByte, All-append, length,
  length-append, byte_at, slice, put16, ◌>>>◌,
}
use clatto.Netutil.{Addr6}
use clatto.Netip.{bytes6}
use clatto.Xlate.Checksum.{checksum, pseudo6}
use clatto.Xlate.Packet.{Pkt, proto_icmp, proto_icmp6, ip6_payload_len}
use clatto.Xlate.V4.Icmp.{icmp_body}
use clatto.Xlate.V4.Header.{header4to6, dec_hop_limit}
use clatto.Xlate.V4.Errors.{IcmpHead, error_packet4to6}
use clatto.Xlate.V6.Generated.{IsIcmp6, header_message, first_byte}

-- What the handler has: an ICMPv4 message, addresses and an embedded packet that are bytes, and a
-- packet that fits the length field.
pub record ErrorReady (p : Pkt) (head : IcmpHead) (inner em : Bytes) (src dst : Addr6)
    : Type 0 where
  pub is_icmp : p.proto ≡ proto_icmp
  pub ip_tos : byte_at p.ip 1 < 256
  pub ip_ttl : byte_at p.ip 8 < 256
  pub src_bytes : IsBytes (bytes6 src)
  pub dst_bytes : IsBytes (bytes6 dst)
  pub typ_byte : head.0 < 256
  pub code_byte : head.1 < 256
  pub inner_bytes : IsBytes inner
  pub inner_long : length inner ≡ 40
  pub em_bytes : IsBytes em
  pub fits : length em < 65000

module _ (p : Pkt) (n : ℕ) (src dst : Addr6) where
  length-header4to6 : length (dec_hop_limit (header4to6 p n src dst)) ≡ 40
  unfolding header4to6
  length-header4to6 = refl

  header4to6-IsBytes :
      p.proto ≡ proto_icmp
      → byte_at p.ip 8 < 256
      → IsBytes (bytes6 src)
      → IsBytes (bytes6 dst)
      → IsBytes (dec_hop_limit (header4to6 p n src dst))
  unfolding header4to6
  header4to6-IsBytes e t hs hd = rw e (ground arith)

  header4to6-version :
      byte_at p.ip 1 < 256 → byte_at (dec_hop_limit (header4to6 p n src dst)) 0 >>> 4 ≡ 6
  unfolding header4to6
  header4to6-version h = first_byte (byte_at p.ip 1) h

  header4to6-next :
      p.proto ≡ proto_icmp → byte_at (dec_hop_limit (header4to6 p n src dst)) 6 ≡ proto_icmp6
  unfolding header4to6
  header4to6-next e = rw e refl

  header4to6-len : n < 65536 → ip6_payload_len (dec_hop_limit (header4to6 p n src dst)) ≡ n
  unfolding header4to6
  header4to6-len h = omega arith

-- With inputs that are bytes and less than 65000 of them, an ICMPv4 error is translated into a packet with the version and the payload length of its own, and
-- with an ICMPv6 checksum that verifies for its addresses.
pub error_packet4to6-IsIcmp6 :
    (p : Pkt) (head : IcmpHead) (inner em : Bytes) (src dst : Addr6)
    → ErrorReady p head inner em src dst
    → IsIcmp6 (error_packet4to6 p head inner em src dst)
unfolding error_packet4to6
error_packet4to6-IsIcmp6 p head inner em src dst w =
    let n = 40 + 8 + 40 + length em - 40 in
    let h = dec_hop_limit (header4to6 p n src dst) in
    let body = inner ++ em in
    let len : n ≡ 8 + length body = omega (arith, length-append inner em, w.inner_long) in
    let small : n < 65536 = omega (arith, w.fits) in
    let ic = icmp_body head.0 head.1 head.2 body in
    subst
      (λ (m : ℕ).
        IsIcmp6
          (h ++ put16 ic 2 (checksum ic (pseudo6 (slice 8 24 h) (slice 24 40 h) m proto_icmp6))))
      (sym len)
      (header_message h head.0 head.1 head.2 body
        (header4to6-IsBytes p n src dst w.is_icmp w.ip_ttl w.src_bytes w.dst_bytes)
        (length-header4to6 p n src dst) (header4to6-version p n src dst w.ip_tos)
        (header4to6-next p n src dst w.is_icmp)
        (omega (arith, header4to6-len p n src dst small, len)) w.typ_byte w.code_byte
        (All-append IsByte inner em w.inner_bytes w.em_bytes) (omega (arith, len, w.fits)))
