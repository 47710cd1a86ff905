-- ===== src/Xlate/V6/DataPackets.antt =====
-- The IPv4 packets that `xlate6to4Data` sends.
use clatto.Base.{
  ℕ, List, leb, Option-cases, ◌+◌, ◌≤◌, ◌≡◌, refl, sym, subst, arith, ◌∙◌, ◌++◌, ◌∷◌, Bytes, length,
  length-set, true, false, Bool, Bool-cases, inl, inr, ltb,
}
use clatto.Netutil.{Addr4}
use clatto.Xlate.Checksum.{nonzero}
use clatto.Xlate.Checksum.Update.{length-put16}
use clatto.Xlate.Events.{Reason, Kind, is_none}
use clatto.Xlate.Packet.{Pkt, event, mtu_min}
use clatto.Xlate.Translator.{
  Translator, Env, World, Output, packet, note, translated, UdpChecksumMode,
}
use clatto.Xlate.V6.Header.{header6to4, dec_ttl, sealed4}
use clatto.Xlate.V6.Payload.{payload6to4, update6to4, echo6to4, zero_udp6to4}
use clatto.Xlate.V6.Data.{emit6to4, data6to4}
use clatto.Xlate.V6.ErrorPackets.{
  HeaderReady, IsBlank4, IsIpv4, proto_of, header6to4-IsBlank4, sealed4-IsIpv4,
}

length-echo6to4 : (p : Pkt) → length (echo6to4 p) ≡ length p.payload
unfolding echo6to4
length-echo6to4 p = length-put16 _ _ _ ∙ length-set _ _ _

length-zero_udp6to4 :
    (m : UdpChecksumMode) (p : Pkt) (h : Bytes)
    → length (zero_udp6to4 m p h).0.payload ≡ length p.payload
unfolding zero_udp6to4
length-zero_udp6to4 UdpChecksumMode.forward p h = refl
length-zero_udp6to4 UdpChecksumMode.calc p h = length-put16 _ _ _
length-zero_udp6to4 UdpChecksumMode.drop p h = refl

length-payload6to4 :
    (t : Translator) (p : Pkt) (h : Bytes) → length (payload6to4 t p h).0.payload ≡ length p.payload
unfolding payload6to4
length-payload6to4 t p h = ground (
  arith,
  length-echo6to4 p,
  length-zero_udp6to4 t.cfg.udp_checksum p h,
  length-put16 p.payload 6 (nonzero (update6to4 p h 6)),
  length-put16 p.payload 16 (update6to4 p h 16),
)

header6to4-trace :
    {S : Type 0} (env : Env S) (p : Pkt) (n : ℕ) (src dst : Addr4) (w : World S)
    → (header6to4 env p n src dst w).1.trace ≡ w.trace
unfolding header6to4
header6to4-trace env p n src dst w = elim (Option-cases p.frag) [
  | inr (f, k) ↦ ground (arith, k)
  | inl k ↦ elim (Bool-cases (leb (p.hdr_len + n) mtu_min)) [
    | inl l ↦ ground (arith, k, l)
    | inr l ↦ ground (arith, k, l)
  ]
]

-- What one packet may add to the trace, by an emitter that takes some lengths: the event of a drop,
-- where there is a reason for one; and where there is none, an IPv4 packet and the count of a
-- translated packet, or nothing, where the emitter has no buffer for that packet.
pub data Sent (accepts : List Output → ℕ → Bool) (p : Pkt) (proto : ℕ) (payload : Bytes)
    (reason : Reason) (before : List Output) : List Output → Type 0 where
  no_buffer :
      (b : Bytes)
      → IsIpv4 proto payload b
      → is_none reason ≡ true
      → accepts before (length b) ≡ false
      → Sent accepts p proto payload reason before before
  refused :
      is_none reason ≡ false
      → Sent accepts p proto payload reason before (note (event p Kind.drop reason) ∷ before)
  whole :
      (b : Bytes)
      → IsIpv4 proto payload b
      → is_none reason ≡ true
      → accepts before (length b) ≡ true
      → Sent accepts p proto payload reason before
          (translated 6 (40 + p.hdr_len + length p.payload) ∷ packet b ∷ before)

module _ {S : Type 0} (env : Env S) (t : Translator) where
  emit6to4-Sent :
      (p : Pkt) (proto : ℕ) (h : Bytes) (w : World S)
      → IsBlank4 (length p.payload) proto h
      → Sent env.accepts p proto
          (payload6to4 t p h).0.payload
          (payload6to4 t p h).1
          w.trace
          (emit6to4 env t p h w).1.trace
  unfolding emit6to4
  emit6to4-Sent p proto h w blank =
      let r = payload6to4 t p h in
      let b = sealed4 h ++ r.0.payload in
      let made =
        sealed4-IsIpv4 proto h r.0.payload
          (subst (λ n. IsBlank4 n proto h) (sym (length-payload6to4 t p h)) blank) in
      elim (Bool-cases (is_none r.1)) [
        | inr k ↦ rw (emit6to4, k) (refused k)
        | inl k ↦ elim (Bool-cases (env.accepts w.trace (length b))) [
          | inr l ↦ rw (emit6to4, k, l) (no_buffer b made k l)
          | inl l ↦ rw (emit6to4, k, l) (whole b made k l)
        ]
      ]

  -- Of an IPv6 packet that fits the MTU and has less than 65000 bytes of payload, `xlate6to4Data`, from
  -- the mapped addresses on, tells of a drop exactly where `payload6to4` gives a reason for one. Where
  -- it gives none, it sends one IPv4 packet and counts it, if the emitter takes a packet of that
  -- length, and does nothing if not: the header has the version, the protocol and the total length of
  -- the packet and a checksum that verifies, and the payload behind it is the one that `payload6to4`
  -- has rewritten.
  pub data6to4-Sent :
      (p : Pkt) (src dst : Addr4) (w : World S)
      → HeaderReady p (length p.payload) src dst
      → 40 + p.hdr_len + length p.payload ≤ t.cfg.mtu
      → let r = payload6to4 t p (dec_ttl (header6to4 env p (length p.payload) src dst w).0) in
        Sent env.accepts p (proto_of p) r.0.payload r.1 w.trace (data6to4 env t p src dst w).1.trace
  unfolding data6to4
  data6to4-Sent p src dst w ready fits =
      let r = header6to4 env p (length p.payload) src dst w in
      let h = dec_ttl r.0 in
      let small : ltb t.cfg.mtu (40 + p.hdr_len + length p.payload) ≡ false = ground arith in
      let sent =
        emit6to4-Sent p (proto_of p) h r.1
          (header6to4-IsBlank4 env p (length p.payload) src dst w ready) in
      let out = (emit6to4 env t p h r.1).1.trace in
      rw small (
        subst
          (λ before.
            Sent env.accepts p (proto_of p) (payload6to4 t p h).0.payload (payload6to4 t p h).1
              before out)
          (header6to4-trace env p (length p.payload) src dst w) sent)
