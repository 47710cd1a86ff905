-- ===== src/Xlate/Packet/Parse6.antt =====
-- `parseIPv6` of internal/xlate/packet.go.
use clatto.Base.{
  ℕ, zero, suc, ◌+◌, ◌*◌, ◌==◌, ltb, Bool, true, false, not, ◌||◌, ◌&&◌, if◌then◌else◌, Bytes,
  length, byte_at, take, drop, bit_and, ◌>>>◌, some, none,
}
use clatto.Netutil.{valid6}
use clatto.Netip.{addr6_at}
use clatto.Xlate.Events.{Reason}
use clatto.Xlate.Packet.{
  Pkt, has, ip6_payload_len, frag_off_flags, ipv6_hdr_len, frag_hdr_len, icmp_hdr_len, proto_icmp,
  proto_icmp6, proto_frag, ip6_frag_mask, ip6_frag_mf,
}

-- The variables of the loop over the extension headers; `rest` is `data`.
pub record Ext : Type 0 where
  pub proto : ℕ
  pub rest : Bytes
  pub hdr_len : ℕ
  pub seg_left : ℕ
  pub seg_ptr : ℕ

abbrev pub is_ext : ℕ → Bool
is_ext proto = proto == 0 || proto == 43 || proto == 60

-- `hl`, the length of the header at hand.
abbrev pub ext_len : Bytes → ℕ
ext_len b = (byte_at b 1 + 1) * 8

abbrev pub too_short : Bytes → Bool
too_short b = ltb (length b) 2 || ltb (length b) (ext_len b)

-- One round, for a header that is not too short.
unfoldable pub skip_ext : Ext → Ext
skip_ext e =
    let hl = ext_len e.rest in
    let left = if e.proto == 43 then byte_at e.rest 3 else e.seg_left in
    record {
      proto = byte_at e.rest 0;
      rest = drop hl e.rest;
      hdr_len = e.hdr_len + hl;
      seg_left = left;
      seg_ptr = if left == 0 then e.seg_ptr + hl else e.seg_ptr;
    }

-- The loop, with fuel; `none` is a header that is too short, with the variables as they then are.
pub data ExtEnd : Type 0 where
  short done : Ext → ExtEnd
  no_fuel : ExtEnd

unfoldable pub ext_loop : ℕ → Ext → ExtEnd
ext_loop zero e = no_fuel
ext_loop (suc fuel) e =
    let again = ext_loop fuel (skip_ext e) in
    if is_ext e.proto then (if too_short e.rest then short e else again) else done e

pub record Parsed6 : Type 0 where
  pub pkt : Pkt
  pub reason : Reason
  pub seg_ptr : ℕ
  pub silent : Bool

abbrev pub fails : Pkt → Reason → Parsed6
fails p r = record { pkt = p; reason = r; seg_ptr = 0; silent = false }

-- The checks of the transport protocol, and of the segments left.
unfoldable pub check_proto6 : Pkt → ℕ → ℕ → Parsed6
check_proto6 p seg_left seg_ptr =
    let fo : ℕ = elim p.frag [ none ↦ 0 | some f ↦ frag_off_flags f ] in
    let passed = λ (q : Pkt). if seg_left == 0 then fails q Reason.none else record {
      pkt = q;
      reason = Reason.routing_header_segments_left;
      seg_ptr = seg_ptr + 4;
      silent = false;
    } in
    if p.proto == proto_icmp6
    then (if has fo 0xfff9
        then fails p Reason.icmp_fragmented
        else if ltb (length p.payload) icmp_hdr_len
        then fails p Reason.icmp_header_length
        else passed (record p { icmp = true }))
    else if p.proto == proto_icmp
    then fails p Reason.ipv4_only_proto
    else passed p

-- The fragment header, if there is one.
unfoldable pub check_frag : Pkt → ℕ → ℕ → Parsed6
check_frag p seg_left seg_ptr =
    if p.proto == proto_frag
    then (if ltb (length p.payload) frag_hdr_len
        then fails p Reason.frag_header_length
        else (let f = take frag_hdr_len p.payload in
            let rest = drop frag_hdr_len p.payload in
            let q = record p {
              frag = some f;
              proto = byte_at f 0;
              payload = rest;
              hdr_len = p.hdr_len + frag_hdr_len;
            } in
            let of = frag_off_flags f in
            if has of ip6_frag_mf && has (length rest) 7
            then fails q Reason.fragment_misaligned
            else if ltb 65535 (bit_and of ip6_frag_mask + length rest)
            then fails q Reason.fragment_too_long
            else check_proto6 q seg_left seg_ptr))
    else check_proto6 p seg_left seg_ptr

-- The packet with what the loop has found.
abbrev pub with_ext : Pkt → Ext → Pkt
with_ext p e = record p { proto = e.proto; payload = e.rest; hdr_len = e.hdr_len }

unfoldable pub after_ext : Pkt → ExtEnd → Parsed6
after_ext p (short e) = fails (with_ext p e) Reason.ext_header_length
after_ext p (done e) = check_frag (with_ext p e) e.seg_left e.seg_ptr
after_ext p no_fuel = fails p Reason.ext_header_length

unfoldable pub parse_ipv6 : Pkt → Parsed6
parse_ipv6 p =
    let raw = p.raw in
    let q = record p { ip = take ipv6_hdr_len raw } in
    let rest = take (ip6_payload_len raw) (drop ipv6_hdr_len raw) in
    let start : Ext = record {
      proto = byte_at raw 6;
      rest = rest;
      hdr_len = p.hdr_len;
      seg_left = 0;
      seg_ptr = ipv6_hdr_len;
    } in
    if ltb (length raw) ipv6_hdr_len
    then fails p Reason.ip_header_length
    else if not (byte_at raw 0 >>> 4 == 6)
        || not (valid6 (addr6_at raw 8))
        || not (valid6 (addr6_at raw 24))
    then record (fails q Reason.ip_header_invalid) {
      silent = byte_at raw 8 == 0xff || byte_at raw 24 == 0xff;
    }
    else after_ext q (ext_loop (suc (length rest)) start)
