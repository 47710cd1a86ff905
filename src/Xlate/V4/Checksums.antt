-- ===== src/Xlate/V4/Checksums.antt =====
-- `payload4to6` keeps the transport checksum valid.
use clatto.Base.{
  ℕ, ◌+◌, ◌≤◌, ◌<◌, ◌≡◌, ◌≢◌, ◌⊎◌, inl, inr, refl, arith, true, Bytes, IsBytes, length, slice, be16,
  bit_and, put16, ◌%◌,
}
use clatto.Xlate.Checksum.{sum16, verify, pseudo4, pseudo6, nonzero}
use clatto.Xlate.Checksum.Update.{verify-adjust}
use clatto.Xlate.Checksum.Pseudo.{pseudo4-Pseudo, pseudo6-Pseudo}
use clatto.Xlate.Events.{Reason}
use clatto.Xlate.Packet.{Pkt, ip4_flags_off, ip4_off_mask, proto_udp, proto_tcp}
use clatto.Xlate.Translator.{Translator}
use clatto.Xlate.V4.Payload.{payload4to6, update4to6}

-- The IPv4 header, the payload and the new IPv6 header are as the handlers have them.
pub record Translatable4 (p : Pkt) (h : Bytes) : Type 0 where
  pub ip_bytes : IsBytes p.ip
  pub ip_long : 20 ≤ length p.ip
  pub payload_bytes : IsBytes p.payload
  pub payload_fits : length p.payload < 65536
  pub header_bytes : IsBytes h
  pub header_long : 40 ≤ length h
  pub addressed : 0 < sum16 (slice 8 40 h) 0
  pub first : bit_and (ip4_flags_off p.ip) ip4_off_mask ≡ 0

-- The transport checksum is one that covers the addresses: TCP's, or UDP's where it is in use.
abbrev pub HasChecksum : Pkt → Type 0
HasChecksum p = (p.proto ≡ proto_tcp) ⊎ ((p.proto ≡ proto_udp) × (be16 p.payload 6 ≢ 0))

-- The sums of the two pseudo-headers.
abbrev pub pseudo_of4 : Pkt → ℕ
pseudo_of4 p = pseudo4 (slice 12 16 p.ip) (slice 16 20 p.ip) (length p.payload) p.proto

abbrev pub pseudo_of6 : Pkt → Bytes → ℕ
pseudo_of6 p h = pseudo6 (slice 8 24 h) (slice 24 40 h) (length p.payload) p.proto

update4to6-verify :
    (p : Pkt) (h : Bytes) (off : ℕ)
    → Translatable4 p h
    → p.proto < 256
    → off % 2 ≡ 0
    → off + 2 ≤ length p.payload
    → verify p.payload (pseudo_of4 p) ≡ true
    → (verify (put16 p.payload off (update4to6 p h off)) (pseudo_of6 p h) ≡ true)
      × (verify (put16 p.payload off (nonzero (update4to6 p h off))) (pseudo_of6 p h) ≡ true)
unfolding update4to6
update4to6-verify p h off w hp e l v =
    let x = pseudo4-Pseudo p.ip (length p.payload) p.proto w.ip_bytes w.ip_long w.payload_fits hp in
    let y =
      pseudo6-Pseudo h (length p.payload) p.proto w.header_bytes w.header_long w.payload_fits hp in
    verify-adjust p.payload off _ _ (length p.payload + p.proto) _ _ w.payload_bytes e l
      (omega (arith, x.pseudo_small, w.payload_fits))
      (omega (arith, y.pseudo_small, w.payload_fits)) (omega (arith, x.addresses_small))
      (omega (arith, y.addresses_small)) w.addressed x.same y.same v

payload4to6-tcp :
    (t : Translator) (p : Pkt) (h : Bytes)
    → bit_and (ip4_flags_off p.ip) ip4_off_mask ≡ 0
    → p.proto ≡ proto_tcp
    → (payload4to6 t p h).1 ≡ Reason.none
    → ((payload4to6 t p h).0.payload ≡ put16 p.payload 16 (update4to6 p h 16))
      × (20 ≤ length p.payload)
unfolding payload4to6
payload4to6-tcp t p h f e r = ground arith

payload4to6-udp :
    (t : Translator) (p : Pkt) (h : Bytes)
    → bit_and (ip4_flags_off p.ip) ip4_off_mask ≡ 0
    → p.proto ≡ proto_udp
    → be16 p.payload 6 ≢ 0
    → (payload4to6 t p h).1 ≡ Reason.none
    → ((payload4to6 t p h).0.payload ≡ put16 p.payload 6 (nonzero (update4to6 p h 6)))
      × (8 ≤ length p.payload)
unfolding payload4to6
payload4to6-udp t p h f e z r = ground arith

-- A TCP packet, or a UDP packet with a checksum in use, that is valid for its IPv4 addresses leaves `payload4to6`, where that
-- succeeds on a first fragment, with a valid checksum for the addresses of the new IPv6 header.
pub payload4to6-verify :
    (t : Translator) (p : Pkt) (h : Bytes)
    → Translatable4 p h
    → HasChecksum p
    → (payload4to6 t p h).1 ≡ Reason.none
    → verify p.payload (pseudo_of4 p) ≡ true
    → verify (payload4to6 t p h).0.payload (pseudo_of6 p h) ≡ true
payload4to6-verify t p h w (inl e) r v =
    let (eq, l) = payload4to6-tcp t p h w.first e r in
    rw eq (update4to6-verify p h 16 w (omega arith) refl (omega arith) v).0
payload4to6-verify t p h w (inr (e, z)) r v =
    let (eq, l) = payload4to6-udp t p h w.first e z r in
    rw eq (update4to6-verify p h 6 w (omega arith) refl (omega arith) v).1
