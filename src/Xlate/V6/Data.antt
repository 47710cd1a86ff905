-- ===== src/Xlate/V6/Data.antt =====
-- `xlate6to4Data`: packets other than ICMPv6 errors.
use clatto.Base.{ℕ, ◌+◌, ltb, if◌then◌else◌, true, false, not, ◌++◌, Bytes, length, slice, ok, err}
use clatto.Netutil.{Addr4}
use clatto.Xlate.Events.{Reason, Kind, is_none}
use clatto.Xlate.Packet.{Pkt, ipv6_hdr_len}
use clatto.Xlate.Translator.{
  Translator, MapError, rejected, dropped, Env, Act, send, observe, done, translated_as, map6to4,
  ◌>>=◌, ◌>>◌,
}
use clatto.Xlate.V6.Icmp.{send_icmp6_error}
use clatto.Xlate.V6.Header.{header6to4, dec_ttl, sealed4}
use clatto.Xlate.V6.Payload.{payload6to4}

module _ {S : Type 0} (env : Env S) where
  -- An address that has no mapping: an ICMPv6 error with `code`, or silence.
  unfoldable pub unmappable6 : Translator → Pkt → Reason → ℕ → MapError → Act S
  unmappable6 t p reason code rejected = do
    observe p Kind.reject reason
    send_icmp6_error env t 1 code 0 p
  unmappable6 t p reason code dropped = observe p Kind.drop reason

  -- With the header made.
  unfoldable pub emit6to4 : Translator → Pkt → Bytes → Act S
  emit6to4 t p h =
      let rewritten = payload6to4 t p h in
      if not (is_none rewritten.1) then observe p Kind.drop rewritten.1 else (do
        sent ← send env (sealed4 h ++ rewritten.0.payload)
        if sent then translated_as 6 (ipv6_hdr_len + p.hdr_len + length p.payload) else done)

  -- From the mapped addresses on.
  unfoldable pub data6to4 : Translator → Pkt → Addr4 → Addr4 → Act S
  data6to4 t p src4 dst4 =
      if ltb t.cfg.mtu (ipv6_hdr_len + p.hdr_len + length p.payload)
      then (do observe p Kind.icmp Reason.packet_too_big; send_icmp6_error env t 2 0 t.cfg.mtu p)
      else (do h ← header6to4 env p (length p.payload) src4 dst4; emit6to4 t p (dec_ttl h))

  unfoldable pub xlate6to4_data : Translator → Pkt → Act S
  xlate6to4_data t p = do
    dst ← map6to4 env (slice 24 40 p.ip) false
    elim dst [
      | err e ↦ unmappable6 t p Reason.destination_unmappable 0 e
      | ok dst4 ↦ do
        src ← map6to4 env (slice 8 24 p.ip) true
        elim src [
          | err e ↦ unmappable6 t p Reason.source_unmappable 5 e
          | ok src4 ↦ data6to4 t p src4 dst4
        ]
    ]
