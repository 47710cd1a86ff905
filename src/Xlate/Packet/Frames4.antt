-- ===== src/Xlate/Packet/Frames4.antt =====
-- What a packet that `parseIPv4` accepts looks like.
use clatto.Base.{
  ℕ, subst, ◌+◌, ◌-◌, ◌*◌, ◌≤◌, ◌≡◌, ltb, ap, sym, ◌∙◌, arith, refl, false, Bool-cases, inl, inr,
  Bytes, length, length-take, length-drop, take, drop, slice, take-add, ◌++◌, min, bit_and, byte_at,
}
use clatto.Netip.{addr4_at}
use clatto.Xlate.Events.{Reason}
use clatto.Xlate.Packet.{Pkt, new_pkt, ip4_total_len, ipv4_hdr_len}
use clatto.Xlate.Packet.Parse4.{parse_ipv4, bad_header4, check_proto4, is_invalid4}

-- The header of `hdr_len` bytes and the payload are the start of the packet, as far as the total
-- length says, or the packet where it is shorter; the ICMP flag is set on a complete ICMP packet only.
pub record IsFrame4 (raw : Bytes) (p : Pkt) : Type 0 where
  pub min_header : 20 ≤ p.hdr_len
  pub header : p.ip ≡ take p.hdr_len raw
  pub whole : p.ip ++ p.payload ≡ take (min (length raw) (ip4_total_len raw)) raw
  pub in_total : p.hdr_len + length p.payload ≤ ip4_total_len raw
  pub in_raw : p.hdr_len + length p.payload ≤ length raw
  pub valid_source : is_invalid4 (addr4_at raw 12) ≡ false
  pub valid_destination : is_invalid4 (addr4_at raw 16) ≡ false

bad_header4-false :
    (raw : Bytes)
    → bad_header4 raw ≡ false
    → (20 ≤ bit_and (byte_at raw 0) 0x0f * 4)
      × (bit_and (byte_at raw 0) 0x0f * 4 ≤ min (length raw) (ip4_total_len raw))
      × (is_invalid4 (addr4_at raw 12) ≡ false)
      × (is_invalid4 (addr4_at raw 16) ≡ false)
unfolding bad_header4
bad_header4-false raw h = ground arith

check_proto4-same :
    (p : Pkt)
    → ((check_proto4 p).0.hdr_len ≡ p.hdr_len)
      × ((check_proto4 p).0.ip ≡ p.ip)
      × ((check_proto4 p).0.payload ≡ p.payload)
unfolding check_proto4
check_proto4-same p = ground arith

take-slice : (i n : ℕ) (b : Bytes) → i ≤ n → take i b ++ slice i n b ≡ take n b
take-slice i n b h =
    let split : n ≡ i + (n - i) = omega arith in
    subst (λ m. take i b ++ slice i n b ≡ take m b) (sym split) (rw (take-add i (n - i) b) refl)

-- The packet that `parseIPv4` has cut out before it looks at the protocol.
cut : Pkt → Pkt
cut p =
    let ihl = bit_and (byte_at p.raw 0) 0x0f * 4 in
    record p {
      ip = take ihl p.raw;
      hdr_len = ihl;
      payload = slice ihl (min (length p.raw) (ip4_total_len p.raw)) p.raw;
      proto = byte_at p.raw 9;
    }

accepted4 :
    (p q : Pkt)
    → parse_ipv4 p ≡ (q, Reason.none)
    → (bad_header4 p.raw ≡ false) × (check_proto4 (cut p) ≡ (q, Reason.none))
unfolding parse_ipv4 cut
accepted4 p q h = elim (Bool-cases (ltb (length p.raw) ipv4_hdr_len)) [
  | inl k ↦
      let e : (p, Reason.ip_header_length) ≡ (q, Reason.none) = rw k at h in
      absurd (ground (arith, e))
  | inr k ↦ elim (Bool-cases (bad_header4 p.raw)) [
    | inl l ↦ absurd (ground (arith, k, l, h))
    | inr l ↦ (l, rw (k, l) at h)
  ]
]

-- What `parseIPv4` accepts has a header of at least 20 bytes and at most the total length, valid
-- addresses, and as its payload all that follows the header, up to the total length or to the end.
pub parse_ipv4-IsFrame4 :
    (raw : Bytes) (q : Pkt) → parse_ipv4 (new_pkt raw) ≡ (q, Reason.none) → IsFrame4 raw q
unfolding cut
parse_ipv4-IsFrame4 raw q h =
    let (good, checked) = accepted4 (new_pkt raw) q h in
    let (low, high, source, destination) = bad_header4-false raw good in
    let (same_len, same_ip, same_payload) = check_proto4-same (cut (new_pkt raw)) in
    let ihl = bit_and (byte_at raw 0) 0x0f * 4 in
    let n = min (length raw) (ip4_total_len raw) in
    let len : q.hdr_len ≡ ihl = sym (ap (λ r. r.0.hdr_len) checked) ∙ same_len in
    let ip : q.ip ≡ take ihl raw = sym (ap (λ r. r.0.ip) checked) ∙ same_ip in
    let payload : q.payload ≡ slice ihl n raw =
      sym (ap (λ r. r.0.payload) checked) ∙ same_payload in
    let size : length q.payload ≡ min (n - ihl) (length raw - ihl) =
      ap length payload
      ∙ length-take (n - ihl) (drop ihl raw)
      ∙ ap (min (n - ihl)) (length-drop ihl raw) in
    record {
      min_header = omega arith;
      header = rw len ip;
      whole = rw (ip, payload) (take-slice ihl n raw high);
      in_total = omega arith;
      in_raw = omega arith;
      valid_source = source;
      valid_destination = destination;
    }
