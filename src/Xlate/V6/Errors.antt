-- ===== src/Xlate/V6/Errors.antt =====
-- `xlate6to4ICMPError`: the translation of ICMPv6 errors.
use clatto.Base.{
  ℕ, ◌+◌, ◌-◌, ◌*◌, ◌==◌, ltb, if◌then◌else◌, List, false, not, ◌&&◌, ◌||◌, Option, some, none,
  Bytes, [], ◌∷◌, ◌++◌, length, byte_at, take, drop, slice, put16, ◌>>>◌, ◌<<<◌, bit_and, get_or,
  Result, ok, err,
}
use clatto.Netutil.{Addr4}
use clatto.Xlate.Checksum.{checksum}
use clatto.Xlate.Events.{Reason, Kind, is_none}
use clatto.Xlate.Packet.{
  Pkt, new_pkt, icmp_word, ip6_payload_len, icmp_hdr_len, ipv4_hdr_len, ipv6_hdr_len, icmp4_max_len,
  mtu_adj, proto_icmp6,
}
use clatto.Xlate.Packet.Parse6.{parse_ipv6}
use clatto.Xlate.Translator.{
  Translator, Config, MapError, Env, M, Act, reserve, tell, packet, observe, done, return,
  translated_as, map6to4, ◌>>=◌, ◌>>◌,
}
use clatto.Xlate.V4.Icmp.{icmp_body}
use clatto.Xlate.V4.Errors.{IcmpHead}
use clatto.Xlate.V6.Header.{header6to4, dec_ttl, sealed4}
use clatto.Xlate.V6.Payload.{payload6to4}

-- The bytes of the embedded packet: RFC 4884 gives its length in 64-bit words; `none` where the
-- message is shorter.
unfoldable pub embedded6 : Pkt → Option Bytes
embedded6 p =
    let typ = byte_at p.payload 0 in
    let raw = drop icmp_hdr_len p.payload in
    let em_len = bit_and (icmp_word p.payload >>> 21) 0x7f8 in
    if (typ == 1 || typ == 3) && not (em_len == 0)
    then (if ltb (length raw) em_len then none else some (take em_len raw))
    else some raw

-- `ptrTable6to4`; `none` is its -1.
abbrev pub ptr_table6to4 : List (Option ℕ)
ptr_table6to4 = some 0 ∷ some 1 ∷ none ∷ none ∷ some 2 ∷ some 2 ∷ some 9 ∷ some 8 ∷ []

unfoldable pub unreachable6to4 : ℕ → Result Reason IcmpHead
unreachable6to4 code =
    if code == 0 || code == 2 || code == 3
    then ok (3, 1, 0)
    else if code == 1
    then ok (3, 10, 0)
    else if code == 4
    then ok (3, 3, 0)
    else err Reason.unknown_unreachable_code

unfoldable pub too_big6to4 : Config → ℕ → Result Reason IcmpHead
too_big6to4 c mtu =
    if ltb mtu 68
    then err Reason.no_mtu_in_packet_too_big
    else ok (3, 4, (if ltb c.mtu mtu then c.mtu else mtu) - mtu_adj)

-- The offset in the IPv4 header for a pointer of at most 39.
unfoldable pub pointer6to4 : ℕ → Option ℕ
pointer6to4 ptr =
    if ltb 23 ptr then some 16 else if ltb 7 ptr then some 12 else get_or ptr_table6to4 ptr none

unfoldable pub param_problem6to4 : ℕ → ℕ → Result Reason IcmpHead
param_problem6to4 code ptr =
    if code == 0
    then (if ltb 39 ptr then err Reason.param_problem_invalid_pointer else elim (pointer6to4 ptr) [
      | none ↦ err Reason.param_problem_untranslatable
      | some np ↦ ok (12, 0, np <<< 24)
    ])
    else if code == 1
    then ok (3, 2, 0)
    else err Reason.param_problem_invalid_code

-- The switch on the type.
unfoldable pub icmp_head6to4 : Config → Pkt → Result Reason IcmpHead
icmp_head6to4 c p =
    let typ = byte_at p.payload 0 in
    let code = byte_at p.payload 1 in
    let word = icmp_word p.payload in
    if typ == 1
    then unreachable6to4 code
    else if typ == 2
    then too_big6to4 c word
    else if typ == 3
    then ok (11, code, 0)
    else if typ == 4
    then param_problem6to4 code word
    else err Reason.unknown_icmp_type

-- The packet that is sent, with the outer header `h`.
unfoldable pub error_packet6to4 : Bytes → IcmpHead → Bytes → Bytes → Bytes
error_packet6to4 h head inner em_payload =
    let ic = icmp_body head.0 head.1 head.2 (inner ++ em_payload) in
    sealed4 (dec_ttl h) ++ put16 ic 2 (checksum ic 0)

-- The source of the error, or the translator's own address where it has no mapping.
unfoldable pub synthesised6to4 : {S : Type 0} → Translator → Pkt → Result MapError Addr4 → M S Addr4
synthesised6to4 t p (ok a) = return a
synthesised6to4 t p (err _) = do observe p Kind.icmp Reason.synthesised_source; return t.local4

module _ {S : Type 0} (env : Env S) (t : Translator) where
  -- With a buffer for the packet at hand.
  unfoldable pub fill_error6to4 : Pkt → IcmpHead → Bytes → Bytes → Addr4 → Addr4 → Act S
  fill_error6to4 p head inner em_payload src4 dst4 = do
    h ← header6to4 env p (icmp_hdr_len + ipv4_hdr_len + length em_payload) src4 dst4
    tell (packet (error_packet6to4 h head inner em_payload))
    translated_as 6 (ipv6_hdr_len + p.hdr_len + length p.payload)

  -- From the mapping of the outer addresses on.
  unfoldable pub send_error6to4 : Pkt → IcmpHead → Bytes → Bytes → Act S
  send_error6to4 p head inner em_payload = do
    src ← map6to4 env (slice 8 24 p.ip) false
    src4 ← synthesised6to4 t p src
    dst ← map6to4 env (slice 24 40 p.ip) false
    elim dst [
      | err _ ↦ observe p Kind.drop Reason.destination_unmappable
      | ok dst4 ↦ do
        granted ← reserve env (ipv4_hdr_len + icmp_hdr_len + ipv4_hdr_len + length em_payload)
        if granted then fill_error6to4 p head inner em_payload src4 dst4 else done
    ]

  -- With the embedded packet's addresses mapped.
  unfoldable pub error_body6to4 : Pkt → IcmpHead → Pkt → Addr4 → Addr4 → Act S
  error_body6to4 p head em em_src em_dst = do
    made ← header6to4 env em (ip6_payload_len em.ip - em.hdr_len) em_src em_dst
    let rewritten = payload6to4 t em made
    if not (is_none rewritten.1)
        then observe p Kind.drop Reason.embedded_untranslatable
        else send_error6to4 p head (sealed4 made) rewritten.0.payload

  -- The mapping of the embedded packet's addresses; both are looked up.
  unfoldable pub map_embedded6to4 : Pkt → IcmpHead → Pkt → Act S
  map_embedded6to4 p head em = do
    em_src ← map6to4 env (slice 8 24 em.ip) false
    em_dst ← map6to4 env (slice 24 40 em.ip) false
    elim em_src [
      | err _ ↦ observe p Kind.drop Reason.embedded_unmappable
      | ok src4 ↦ elim em_dst [
        | err _ ↦ observe p Kind.drop Reason.embedded_unmappable
        | ok dst4 ↦ error_body6to4 p head em src4 dst4
      ]
    ]

  unfoldable pub xlate6to4_icmp_error : Pkt → Act S
  xlate6to4_icmp_error p = elim (embedded6 p) [
    | none ↦ observe p Kind.drop Reason.embedded_too_short
    | some raw ↦
        let parsed = parse_ipv6 (new_pkt raw) in
        let em = parsed.pkt in
        if not (is_none parsed.reason)
        then observe p Kind.drop Reason.embedded_parse_failed
        else if em.proto == proto_icmp6 && not (byte_at em.payload 0 == 128)
        then observe p Kind.drop Reason.icmp_error_of_icmp_error
        else elim (icmp_head6to4 t.cfg p) [
          | err r ↦ observe p Kind.drop r
          | ok head ↦ map_embedded6to4 p head (record em {
            payload = take (icmp4_max_len - 2 * ipv4_hdr_len - icmp_hdr_len) em.payload;
          })
        ]
  ]
