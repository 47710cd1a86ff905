-- ===== src/Xlate/V4/Bounds.antt =====
-- Bounds on the ICMP messages of the IPv4 side.
use clatto.Netip.{bytes4}
use clatto.Base.{
  ℕ, refl, ◌&&◌, not, ◌==◌, byte_at, slice, ◌+◌, ◌≤◌, ◌≡◌, ◌⊎◌, arith, min, ◌∷◌, length,
  length-append, length-take, put16, Bytes, Bool-cases, inl, inr, take,
}
use clatto.Xlate.Checksum.{checksum}
use clatto.Xlate.Checksum.Update.{length-put16}
use clatto.Xlate.Packet.{Pkt, proto_icmp}
use clatto.Xlate.Translator.{Translator, Config, Env, World, packet}
use clatto.Xlate.V4.Icmp.{icmp4_packet, icmp4_header, icmp_body, send_icmp4, send_icmp4_error}
use clatto.Xlate.V4.Errors.{mtu4to6}

length-icmp4_packet :
    (tos : ℕ) (src dst : Bytes) (typ code word : ℕ) (payload : Bytes)
    → length (icmp4_packet tos src dst typ code word payload) ≤ 28 + length payload
unfolding icmp4_packet
length-icmp4_packet tos src dst typ code word payload =
    let h = icmp4_header tos (28 + length payload) src dst in
    let ic = icmp_body typ code word payload in
    omega (
      arith,
      length-append (put16 h 10 (checksum h 0)) (put16 ic 2 (checksum ic 0)),
      length-put16 h 10 (checksum h 0),
      length-put16 ic 2 (checksum ic 0),
      length-append (take 4 src) (take 4 dst),
      length-take 4 src,
      length-take 4 dst,
    )

-- The MTU that a translated "fragmentation needed" message tells is at least 1280 bytes, and at
-- most the translator's own MTU where that is at least 1280.
pub mtu4to6-bounds :
    (c : Config) (word : ℕ) (em_ip : Bytes)
    → (1280 ≤ mtu4to6 c word em_ip) × (1280 ≤ c.mtu → mtu4to6 c word em_ip ≤ c.mtu)
unfolding mtu4to6
mtu4to6-bounds c word em_ip = ground arith

module _ {S : Type 0} (env : Env S) (t : Translator) where
  send_icmp4-sent :
      (tos : ℕ) (src dst : Bytes) (typ code word : ℕ) (payload : Bytes) (w : World S)
      → ((send_icmp4 env tos src dst typ code word payload w).1 ≡ w)
        ⊎ ((send_icmp4 env tos src dst typ code word payload w).1 ≡ record w {
          trace = packet (icmp4_packet tos src dst typ code word payload) ∷ w.trace;
        })
  unfolding send_icmp4
  send_icmp4-sent tos src dst typ code word payload w =
      elim (Bool-cases
        (env.accepts w.trace (length (icmp4_packet tos src dst typ code word payload)))) [
          | inl k ↦ inr (rw k refl)
          | inr k ↦ inl (rw k refl)
        ]

  -- An ICMPv4 error of the translator is at most one packet, of at most 576 bytes, and the mapper is
  -- not asked.
  pub send_icmp4_error-bound :
      (typ code word : ℕ) (orig : Pkt) (w : World S)
      → ((send_icmp4_error env t typ code word orig w).1 ≡ w)
        ⊎ ((b : Bytes) × (((send_icmp4_error env t typ code word orig w).1
                ≡ record w { trace = packet b ∷ w.trace })
              × (length b ≤ 576)))
  unfolding send_icmp4_error
  send_icmp4_error-bound typ code word orig w =
      elim (Bool-cases (orig.proto == proto_icmp && not (byte_at orig.payload 0 == 8))) [
        | inl k ↦ inl (rw k refl)
        | inr k ↦
            let n = min (orig.hdr_len + length orig.payload) 548 in
            let quoted = take n orig.raw in
            let b = icmp4_packet 0 (bytes4 t.local4) (slice 12 16 orig.ip) typ code word quoted in
            let small : length b ≤ 576 = omega (
              arith,
              length-icmp4_packet 0 (bytes4 t.local4) (slice 12 16 orig.ip) typ code word quoted,
              length-take n orig.raw,
            ) in
            elim (send_icmp4-sent 0 (bytes4 t.local4) (slice 12 16 orig.ip) typ code word quoted
              w) [ inl q ↦ inl (rw k q) | inr q ↦ inr (b, (rw k q, small)) ]
      ]
