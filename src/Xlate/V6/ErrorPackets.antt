-- ===== src/Xlate/V6/ErrorPackets.antt =====
-- The IPv4 headers that `header6to4` fills, and the ICMPv4 errors that `xlate6to4ICMPError` sends.
use clatto.Base.{
  ℕ, zero, suc, set, get_or-append, ◌+◌, ◌*◌, ◌<◌, ◌≡◌, refl, sym, subst, arith, ◌∙◌, ◌++◌, [], ◌∷◌,
  Bytes, IsBytes, length, length-append, byte_at, take, drop, take-append_length,
  drop-append_length, put16, u8, u16, ◌>>>◌, ◌==◌, if◌then◌else◌, true, Bool-cases, inl, inr, leb,
  Option-cases,
}
use clatto.Netutil.{Addr4}
use clatto.Netip.{bytes4}
use clatto.Xlate.Checksum.{checksum, verify}
use clatto.Xlate.Checksum.Update.{verify-checksum, length-put16}
use clatto.Xlate.Packet.{
  Pkt, frag_ident, ip4_flag_df, proto_icmp, proto_icmp6, ip4_total_len, mtu_min,
}
use clatto.Xlate.Translator.{Env, World}
use clatto.Xlate.V4.Icmp.{icmp_body}
use clatto.Xlate.V4.Errors.{IcmpHead}
use clatto.Xlate.V4.Generated.{IsIcmp4, icmp_body-verify, length-icmp_body}
use clatto.Xlate.V6.Header.{header4, carry_frag, header6to4, dec_ttl, sealed4}
use clatto.Xlate.V6.Errors.{error_packet6to4}

-- A header of 20 bytes, its checksum field zero, for a payload of `n` bytes.
pub record IsBlank4 (n proto : ℕ) (h : Bytes) : Type 0 where
  pub header_bytes : IsBytes h
  pub header_long : length h ≡ 20
  pub version : byte_at h 0 ≡ 0x45
  pub protocol : byte_at h 9 ≡ proto
  pub total : ip4_total_len h ≡ 20 + n
  pub no_checksum : byte_at h 10 * 256 + byte_at h 11 ≡ 0

-- What the handlers have of a packet and of the new addresses.
pub record HeaderReady (p : Pkt) (n : ℕ) (src dst : Addr4) : Type 0 where
  pub hop_limit : byte_at p.ip 7 < 256
  pub proto_byte : p.proto < 256
  pub src_bytes : IsBytes (bytes4 src)
  pub dst_bytes : IsBytes (bytes4 dst)
  pub fits : n < 65000

abbrev pub proto_of : Pkt → ℕ
proto_of p = if p.proto == proto_icmp6 then proto_icmp else p.proto

header4-IsBlank4 :
    (p : Pkt) (n ident flags : ℕ) (src dst : Addr4)
    → HeaderReady p n src dst
    → IsBlank4 n (proto_of p) (dec_ttl (header4 p n ident flags src dst))
unfolding header4
header4-IsBlank4 p n ident flags src dst w = record {
  header_bytes = ground (arith, w.hop_limit, w.proto_byte, w.src_bytes, w.dst_bytes);
  header_long = refl;
  version = refl;
  protocol = refl;
  total = omega (arith, w.fits);
  no_checksum = refl;
}

header6to4-header4 :
    {S : Type 0} (env : Env S) (p : Pkt) (n : ℕ) (src dst : Addr4) (w : World S)
    → (ident : ℕ) × (flags : ℕ) × ((header6to4 env p n src dst w).0
        ≡ header4 p n ident flags src dst)
unfolding header6to4
header6to4-header4 env p n src dst w = elim (Option-cases p.frag) [
  | inr (f, k) ↦ (u16 (frag_ident f), carry_frag f, ground (arith, k))
  | inl k ↦ elim (Bool-cases (leb (p.hdr_len + n) mtu_min)) [
    | inl l ↦ (u16 (env.rand32 w.draws), 0, ground (arith, k, l))
    | inr l ↦ (0, ip4_flag_df, ground (arith, k, l))
  ]
]

pub header6to4-IsBlank4 :
    {S : Type 0} (env : Env S) (p : Pkt) (n : ℕ) (src dst : Addr4) (w : World S)
    → HeaderReady p n src dst
    → IsBlank4 n (proto_of p) (dec_ttl (header6to4 env p n src dst w).0)
header6to4-IsBlank4 env p n src dst w r =
    let (ident, flags, q) = header6to4-header4 env p n src dst w in
    subst (λ h. IsBlank4 n (proto_of p) (dec_ttl h)) (sym q)
      (header4-IsBlank4 p n ident flags src dst r)

get_or-set : (b : Bytes) (i j v : ℕ) → j < i → byte_at (set b i v) j ≡ byte_at b j
get_or-set [] i j v h = refl
get_or-set (x ∷ b) zero j v h = absurd (omega arith)
get_or-set (x ∷ b) (suc i) zero v h = refl
get_or-set (x ∷ b) (suc i) (suc j) v h = get_or-set b i j v (omega arith)

-- Sealing and a payload leave the first ten bytes alone.
byte_at-sealed4 :
    (h payload : Bytes) (j : ℕ)
    → length h ≡ 20
    → j < 10
    → byte_at (sealed4 h ++ payload) j ≡ byte_at h j
byte_at-sealed4 h payload j l k =
    get_or-append (sealed4 h) payload j 0 (omega (arith, length-put16 h 10 (checksum h 0)))
    ∙ get_or-set (set h 10 (u8 (checksum h 0 >>> 8))) 11 j (u8 (checksum h 0)) (omega arith)
    ∙ get_or-set h 10 j (u8 (checksum h 0 >>> 8)) k

sealed4-verify : (n proto : ℕ) (h : Bytes) → IsBlank4 n proto h → verify (sealed4 h) 0 ≡ true
sealed4-verify n proto h w =
    verify-checksum h 10 0 w.header_bytes (omega (arith, w.header_long)) refl
      (omega (arith, w.header_long)) w.no_checksum

-- A sealed header before its payload.
pub record IsIpv4 (proto : ℕ) (payload b : Bytes) : Type 0 where
  pub version : byte_at b 0 ≡ 0x45
  pub protocol : byte_at b 9 ≡ proto
  pub exact : ip4_total_len b ≡ length b
  pub header_valid : verify (take 20 b) 0 ≡ true
  pub rest : drop 20 b ≡ payload

pub sealed4-IsIpv4 :
    (proto : ℕ) (h payload : Bytes)
    → IsBlank4 (length payload) proto h
    → IsIpv4 proto payload (sealed4 h ++ payload)
sealed4-IsIpv4 proto h payload w =
    let ls : length (sealed4 h) ≡ 20 = length-put16 h 10 (checksum h 0) ∙ w.header_long in
    let at = λ (j : ℕ) (k : j < 10). byte_at-sealed4 h payload j w.header_long k in
    record {
      version = at 0 (omega arith) ∙ w.version;
      protocol = at 9 (omega arith) ∙ w.protocol;
      exact = omega (
        arith,
        at 2 (omega arith),
        at 3 (omega arith),
        w.total,
        ls,
        length-append (sealed4 h) payload,
      );
      header_valid =
          rw (take-append_length 20 (sealed4 h) payload ls)
            (sealed4-verify (length payload) proto h w);
      rest = drop-append_length 20 (sealed4 h) payload ls;
    }

-- With inputs that are bytes and less than 65000 of them, an ICMPv6 error is translated into an IPv4 packet with the total length of its own, whose header
-- checksum and ICMP checksum verify.
pub error_packet6to4-IsIcmp4 :
    {S : Type 0} (env : Env S) (p : Pkt) (head : IcmpHead) (inner em : Bytes) (src dst : Addr4)
    (w : World S)
    → HeaderReady p (8 + length (inner ++ em)) src dst
    → p.proto ≡ proto_icmp6
    → head.0 < 256
    → head.1 < 256
    → IsBytes (inner ++ em)
    → IsIcmp4
        (error_packet6to4 (header6to4 env p (8 + length (inner ++ em)) src dst w).0 head inner em)
unfolding error_packet6to4
error_packet6to4-IsIcmp4 env p head inner em src dst w r e ht hc hb =
    let body = inner ++ em in
    let ic = icmp_body head.0 head.1 head.2 body in
    let message = put16 ic 2 (checksum ic 0) in
    let size : length message ≡ 8 + length body =
      length-put16 ic 2 (checksum ic 0) ∙ length-icmp_body head.0 head.1 head.2 body in
    let h = dec_ttl (header6to4 env p (8 + length body) src dst w).0 in
    let blank : IsBlank4 (length message) (proto_of p) h =
      subst (λ n. IsBlank4 n (proto_of p) h) (sym size)
        (header6to4-IsBlank4 env p (8 + length body) src dst w r) in
    let whole = sealed4-IsIpv4 (proto_of p) h message blank in
    record {
      version = whole.version;
      protocol = whole.protocol ∙ rw e refl;
      exact = whole.exact;
      header_valid = whole.header_valid;
      message_valid = rw whole.rest (
          icmp_body-verify head.0 head.1 head.2 0 body ht hc hb (omega (arith, r.fits))
            (omega arith));
    }
