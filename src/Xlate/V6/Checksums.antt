-- ===== src/Xlate/V6/Checksums.antt =====
-- `payload6to4` keeps the transport checksum valid.
use clatto.Base.{
  ℕ, ◌+◌, ◌≤◌, ◌<◌, ◌≡◌, ◌≢◌, inl, inr, refl, arith, true, false, Bytes, IsBytes, length, slice,
  be16, put16, ◌%◌,
}
use clatto.Xlate.Checksum.{sum16, verify, pseudo4, pseudo6, nonzero}
use clatto.Xlate.Checksum.Update.{verify-adjust}
use clatto.Xlate.Checksum.Pseudo.{pseudo4-Pseudo, pseudo6-Pseudo}
use clatto.Xlate.Events.{Reason}
use clatto.Xlate.Packet.{Pkt, proto_udp, proto_tcp}
use clatto.Xlate.Translator.{Translator}
use clatto.Xlate.V4.Checksums.{HasChecksum}
use clatto.Xlate.V6.Payload.{payload6to4, update6to4, later_fragment}

-- The IPv6 header, the payload and the new IPv4 header are as the handlers have them.
pub record Translatable6 (p : Pkt) (h : Bytes) : Type 0 where
  pub ip_bytes : IsBytes p.ip
  pub ip_long : 40 ≤ length p.ip
  pub payload_bytes : IsBytes p.payload
  pub payload_fits : length p.payload < 65536
  pub header_bytes : IsBytes h
  pub header_long : 20 ≤ length h
  pub addressed : 0 < sum16 (slice 12 20 h) 0
  pub first : later_fragment p ≡ false

-- The sums of the two pseudo-headers.
abbrev pub pseudo_of6 : Pkt → ℕ
pseudo_of6 p = pseudo6 (slice 8 24 p.ip) (slice 24 40 p.ip) (length p.payload) p.proto

abbrev pub pseudo_of4 : Pkt → Bytes → ℕ
pseudo_of4 p h = pseudo4 (slice 12 16 h) (slice 16 20 h) (length p.payload) p.proto

update6to4-verify :
    (p : Pkt) (h : Bytes) (off : ℕ)
    → Translatable6 p h
    → p.proto < 256
    → off % 2 ≡ 0
    → off + 2 ≤ length p.payload
    → verify p.payload (pseudo_of6 p) ≡ true
    → (verify (put16 p.payload off (update6to4 p h off)) (pseudo_of4 p h) ≡ true)
      × (verify (put16 p.payload off (nonzero (update6to4 p h off))) (pseudo_of4 p h) ≡ true)
unfolding update6to4
update6to4-verify p h off w hp e l v =
    let x = pseudo6-Pseudo p.ip (length p.payload) p.proto w.ip_bytes w.ip_long w.payload_fits hp in
    let y =
      pseudo4-Pseudo h (length p.payload) p.proto w.header_bytes w.header_long w.payload_fits hp in
    verify-adjust p.payload off _ _ (length p.payload + p.proto) _ _ w.payload_bytes e l
      (omega (arith, x.pseudo_small, w.payload_fits))
      (omega (arith, y.pseudo_small, w.payload_fits)) (omega (arith, x.addresses_small))
      (omega (arith, y.addresses_small)) w.addressed x.same y.same v

payload6to4-tcp :
    (t : Translator) (p : Pkt) (h : Bytes)
    → later_fragment p ≡ false
    → p.proto ≡ proto_tcp
    → (payload6to4 t p h).1 ≡ Reason.none
    → ((payload6to4 t p h).0.payload ≡ put16 p.payload 16 (update6to4 p h 16))
      × (20 ≤ length p.payload)
unfolding payload6to4
payload6to4-tcp t p h f e r = ground arith

payload6to4-udp :
    (t : Translator) (p : Pkt) (h : Bytes)
    → later_fragment p ≡ false
    → p.proto ≡ proto_udp
    → be16 p.payload 6 ≢ 0
    → (payload6to4 t p h).1 ≡ Reason.none
    → ((payload6to4 t p h).0.payload ≡ put16 p.payload 6 (nonzero (update6to4 p h 6)))
      × (8 ≤ length p.payload)
unfolding payload6to4
payload6to4-udp t p h f e z r = ground arith

-- A TCP packet, or a UDP packet with a checksum in use, that is valid for its IPv6 addresses leaves `payload6to4`, where that
-- succeeds on a first fragment, with a valid checksum for the addresses of the new IPv4 header.
pub payload6to4-verify :
    (t : Translator) (p : Pkt) (h : Bytes)
    → Translatable6 p h
    → HasChecksum p
    → (payload6to4 t p h).1 ≡ Reason.none
    → verify p.payload (pseudo_of6 p) ≡ true
    → verify (payload6to4 t p h).0.payload (pseudo_of4 p h) ≡ true
payload6to4-verify t p h w (inl e) r v =
    let (eq, l) = payload6to4-tcp t p h w.first e r in
    rw eq (update6to4-verify p h 16 w (omega arith) refl (omega arith) v).0
payload6to4-verify t p h w (inr (e, z)) r v =
    let (eq, l) = payload6to4-udp t p h w.first e z r in
    rw eq (update6to4-verify p h 6 w (omega arith) refl (omega arith) v).1
