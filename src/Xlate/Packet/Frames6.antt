-- ===== src/Xlate/Packet/Frames6.antt =====
-- What a packet that `parseIPv6` accepts looks like.
use clatto.Base.{
  ℕ, suc, ◌+◌, ◌-◌, ◌≤◌, ◌≡◌, ◌==◌, ltb, ap, ◌∙◌, arith, refl, true, not, ◌||◌, Bool-cases, inl,
  inr, Bytes, length, length-take, length-drop, take, drop, min, byte_at, ◌>>>◌, some, bit_and,
  ◌&&◌,
}
use clatto.Netutil.{valid6}
use clatto.Netip.{addr6_at}
use clatto.Xlate.Events.{Reason}
use clatto.Xlate.Packet.{
  Pkt, new_pkt, ip6_payload_len, ipv6_hdr_len, frag_hdr_len, proto_frag, has, frag_off_flags,
  ip6_frag_mf, ip6_frag_mask,
}
use clatto.Xlate.Packet.Parse6.{
  Ext, ExtEnd, ext_loop, check_proto6, check_frag, with_ext, after_ext, parse_ipv6,
}
use clatto.Xlate.Packet.Headers.{LoopEnd, ext_loop-LoopEnd}

-- The fixed header is the first 40 bytes, the addresses are valid, and the lengths of the extension
-- headers and of the payload add up to the payload length, or to the bytes there are.
pub record IsFrame6 (raw : Bytes) (p : Pkt) : Type 0 where
  pub min_length : 40 ≤ length raw
  pub header : p.ip ≡ take 40 raw
  pub whole : p.hdr_len + length p.payload ≡ min (ip6_payload_len raw) (length raw - 40)
  pub valid_source : valid6 (addr6_at raw 8) ≡ true
  pub valid_destination : valid6 (addr6_at raw 24) ≡ true

abbrev SameSize : Pkt → Pkt → Type 0
SameSize p q = (q.hdr_len + length q.payload ≡ p.hdr_len + length p.payload) × (q.ip ≡ p.ip)

check_proto6-same : (p : Pkt) (left ptr : ℕ) → SameSize p (check_proto6 p left ptr).pkt
unfolding check_proto6
check_proto6-same p left ptr = ground arith

-- The packet behind a fragment header.
behind_frag : Pkt → Pkt
behind_frag p =
    let f = take frag_hdr_len p.payload in
    record p {
      frag = some f;
      proto = byte_at f 0;
      payload = drop frag_hdr_len p.payload;
      hdr_len = p.hdr_len + frag_hdr_len;
    }

behind_frag-same : (p : Pkt) → 8 ≤ length p.payload → SameSize p (behind_frag p)
unfolding behind_frag
behind_frag-same p h = (omega (arith, length-drop 8 p.payload), refl)

SameSize-trans : (p q r : Pkt) → SameSize p q → SameSize q r → SameSize p r
SameSize-trans p q r a b = (b.0 ∙ a.0, b.1 ∙ a.1)

check_frag-same :
    (p : Pkt) (left ptr : ℕ)
    → (check_frag p left ptr).reason ≡ Reason.none
    → SameSize p (check_frag p left ptr).pkt
unfolding check_frag behind_frag
check_frag-same p left ptr h = elim (Bool-cases (p.proto == proto_frag)) [
  | inr k ↦ rw k (check_proto6-same p left ptr)
  | inl k ↦ elim (Bool-cases (ltb (length p.payload) frag_hdr_len)) [
    | inl l ↦ absurd (ground (arith, k, l, h))
    | inr l ↦
        let q = behind_frag p in
        let same : SameSize p q = behind_frag-same p (ground arith) in
        let of = frag_off_flags (take frag_hdr_len p.payload) in
        elim (Bool-cases (has of ip6_frag_mf && has (length q.payload) 7)) [
          | inl m ↦ rw (k, l, m) same
          | inr m ↦ elim (Bool-cases (ltb 65535 (bit_and of ip6_frag_mask + length q.payload))) [
            | inl n ↦ rw (k, l, m, n) same
            | inr n ↦
                rw (k, l, m, n)
                  (SameSize-trans p q (check_proto6 q left ptr).pkt same
                    (check_proto6-same q left ptr))
          ]
        ]
  ]
]

after_ext-same :
    (p : Pkt) (e : Ext) (r : ExtEnd)
    → LoopEnd e r
    → (after_ext p r).reason ≡ Reason.none
    → ((after_ext p r).pkt.hdr_len + length (after_ext p r).pkt.payload ≡ e.hdr_len + length e.rest)
      × ((after_ext p r).pkt.ip ≡ p.ip)
unfolding after_ext
after_ext-same p e (ExtEnd.short o) n h = absurd (ground (arith, h))
after_ext-same p e (ExtEnd.done o) n h =
    let same = check_frag-same (with_ext p o) o.seg_left o.seg_ptr h in
    (same.0 ∙ n.0.conserved, same.1)
after_ext-same p e ExtEnd.no_fuel n h = absurd n

-- What `parseIPv6` accepts has valid addresses, and the lengths of its extension headers and of its
-- payload add up to the payload length of its header, or to the bytes behind the header where these
-- are fewer.
pub parse_ipv6-IsFrame6 :
    (raw : Bytes)
    → (parse_ipv6 (new_pkt raw)).reason ≡ Reason.none
    → IsFrame6 raw (parse_ipv6 (new_pkt raw)).pkt
unfolding parse_ipv6
parse_ipv6-IsFrame6 raw h = elim (Bool-cases (ltb (length raw) ipv6_hdr_len)) [
  | inl k ↦ absurd (ground (arith, k, h))
  | inr k ↦
      elim (Bool-cases (
        not (byte_at raw 0 >>> 4 == 6)
        || not (valid6 (addr6_at raw 8))
        || not (valid6 (addr6_at raw 24)))) [
          | inl l ↦ absurd (ground (arith, k, l, h))
          | inr l ↦
              let rest = take (ip6_payload_len raw) (drop ipv6_hdr_len raw) in
              let start : Ext = record {
                proto = byte_at raw 6;
                rest = rest;
                hdr_len = 0;
                seg_left = 0;
                seg_ptr = ipv6_hdr_len;
              } in
              let p : Pkt = record (new_pkt raw) { ip = take ipv6_hdr_len raw } in
              let r = ext_loop (suc (length rest)) start in
              let end : LoopEnd start r =
                ext_loop-LoopEnd (suc (length rest)) start (omega arith) in
              let clean : (after_ext p r).reason ≡ Reason.none = rw (k, l) at h in
              let same = after_ext-same p start r end clean in
              let size : length rest ≡ min (ip6_payload_len raw) (length raw - 40) =
                length-take (ip6_payload_len raw) (drop 40 raw)
                ∙ ap (min (ip6_payload_len raw)) (length-drop 40 raw) in
              rw (k, l)
                record {
                  min_length = ground arith;
                  header = same.1;
                  whole = omega (arith, same.0, size);
                  valid_source = ground (arith, l);
                  valid_destination = ground (arith, l);
                }
        ]
]
