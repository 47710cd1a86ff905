-- ===== src/Xlate/V4/Errors.antt =====
-- `xlate4to6ICMPError`: the translation of ICMPv4 errors.
use clatto.Base.{
  List, ℕ, ◌+◌, ◌-◌, ◌*◌, ◌==◌, ltb, leb, if◌then◌else◌, not, ◌&&◌, ◌||◌, Option, some, none, Bytes,
  [], ◌∷◌, ◌++◌, length, byte_at, take, drop, slice, put16, ◌>>>◌, bit_and, get_or, Result, ok, err,
}
use clatto.Netutil.{Addr6}
use clatto.Xlate.Checksum.{checksum, pseudo6}
use clatto.Xlate.Events.{Reason, Kind, is_none}
use clatto.Xlate.Packet.{
  Pkt, new_pkt, icmp_word, ip4_total_len, est_mtu, icmp_hdr_len, ipv6_hdr_len, mtu_min, mtu_adj,
  proto_icmp, proto_icmp6,
}
use clatto.Xlate.Packet.Parse4.{parse_ipv4}
use clatto.Xlate.Translator.{
  Translator, Config, MapError, Env, M, Act, send, observe, done, return, translated_as, map4to6,
  ◌>>=◌, ◌>>◌,
}
use clatto.Xlate.V4.Icmp.{icmp_body}
use clatto.Xlate.V4.Header.{header4to6, dec_hop_limit}
use clatto.Xlate.V4.Payload.{payload4to6}

-- The bytes of the embedded packet: RFC 4884 gives its length in 32-bit words; `none` where the
-- message is shorter.
unfoldable pub embedded4 : Pkt → Option Bytes
embedded4 p =
    let typ = byte_at p.payload 0 in
    let raw = drop icmp_hdr_len p.payload in
    let em_len = bit_and (icmp_word p.payload >>> 14) 0x3fc in
    if (typ == 3 || typ == 11 || typ == 12) && not (em_len == 0)
    then (if ltb (length raw) em_len then none else some (take em_len raw))
    else some raw

-- The MTU of a "fragmentation needed" message, for the IPv6 side.
unfoldable pub mtu4to6 : Config → ℕ → Bytes → ℕ
mtu4to6 c word em_ip =
    let told = bit_and word 0xffff in
    let mtu = (if ltb told 68 then est_mtu (ip4_total_len em_ip) else told) + mtu_adj in
    let capped = if ltb c.mtu mtu then c.mtu else mtu in
    if ltb capped mtu_min then mtu_min else capped

-- `ptrTable4to6`; `none` is its -1.
abbrev pub ptr_table4to6 : List (Option ℕ)
ptr_table4to6 =
    some 0
    ∷ some 1
    ∷ some 4
    ∷ some 4
    ∷ none
    ∷ none
    ∷ none
    ∷ none
    ∷ some 7
    ∷ some 6
    ∷ none
    ∷ none
    ∷ some 8
    ∷ some 8
    ∷ some 8
    ∷ some 8
    ∷ some 24
    ∷ some 24
    ∷ some 24
    ∷ some 24
    ∷ []

-- The type, the code and the second word of the ICMPv6 message.
abbrev pub IcmpHead : Type 0
IcmpHead = ℕ × ℕ × ℕ

unfoldable pub unreachable4to6 : Config → ℕ → ℕ → Bytes → Result Reason IcmpHead
unreachable4to6 c code word em_ip =
    if code == 0
      || code == 1
      || code == 5
      || code == 6
      || code == 7
      || code == 8
      || code == 11
      || code == 12
    then ok (1, 0, 0)
    else if code == 2
    then ok (4, 1, 6)
    else if code == 3
    then ok (1, 4, 0)
    else if code == 4
    then ok (2, 0, mtu4to6 c word em_ip)
    else if code == 9 || code == 10 || code == 13 || code == 15
    then ok (1, 1, 0)
    else err Reason.unknown_unreachable_code

unfoldable pub param_problem4to6 : ℕ → ℕ → Result Reason IcmpHead
param_problem4to6 code word =
    let ptr = word >>> 24 in
    if not (code == 0) && not (code == 2)
    then err Reason.param_problem_invalid_code
    else if leb 20 ptr
    then err Reason.param_problem_invalid_pointer
    else elim (get_or ptr_table4to6 ptr none) [
      | none ↦ err Reason.param_problem_untranslatable
      | some np ↦ ok (4, 0, np)
    ]

-- The switch on the type.
unfoldable pub icmp_head4to6 : Config → Pkt → Bytes → Result Reason IcmpHead
icmp_head4to6 c p em_ip =
    let typ = byte_at p.payload 0 in
    let code = byte_at p.payload 1 in
    let word = icmp_word p.payload in
    if typ == 3
    then unreachable4to6 c code word em_ip
    else if typ == 11
    then ok (3, code, 0)
    else if typ == 12
    then param_problem4to6 code word
    else err Reason.unknown_icmp_type

-- The packet that is sent: `em` has its transport header rewritten for `inner`.
unfoldable pub error_packet4to6 : Pkt → IcmpHead → Bytes → Bytes → Addr6 → Addr6 → Bytes
error_packet4to6 p head inner em_payload src6 dst6 =
    let n = ipv6_hdr_len + icmp_hdr_len + ipv6_hdr_len + length em_payload in
    let h = dec_hop_limit (header4to6 p (n - ipv6_hdr_len) src6 dst6) in
    let ic = icmp_body head.0 head.1 head.2 (inner ++ em_payload) in
    h
    ++ put16 ic 2
        (checksum ic (pseudo6 (slice 8 24 h) (slice 24 40 h) (n - ipv6_hdr_len) proto_icmp6))

-- The source of the error, or the translator's own address where it has no mapping.
unfoldable pub synthesised4to6 : {S : Type 0} → Translator → Pkt → Result MapError Addr6 → M S Addr6
synthesised4to6 t p (ok a) = return a
synthesised4to6 t p (err _) = do observe p Kind.icmp Reason.synthesised_source; return t.local6

module _ {S : Type 0} (env : Env S) (t : Translator) where
  -- From the mapping of the outer addresses on.
  unfoldable pub send_error4to6 : Pkt → IcmpHead → Bytes → Bytes → Act S
  send_error4to6 p head inner em_payload = do
    src ← map4to6 env (slice 12 16 p.ip)
    src6 ← synthesised4to6 t p src
    dst ← map4to6 env (slice 16 20 p.ip)
    elim dst [
      | err _ ↦ observe p Kind.drop Reason.destination_unmappable
      | ok dst6 ↦ do
        sent ← send env (error_packet4to6 p head inner em_payload src6 dst6)
        if sent then translated_as 4 (p.hdr_len + length p.payload) else done
    ]

  -- From the embedded packet's addresses on.
  unfoldable pub error_head4to6 : Pkt → Pkt → Addr6 → Addr6 → Act S
  error_head4to6 p em em_src em_dst =
      let inner = header4to6 em (ip4_total_len em.ip - em.hdr_len) em_src em_dst in
      elim (icmp_head4to6 t.cfg p em.ip) [
        | err r ↦ observe p Kind.drop r
        | ok head ↦
            let rewritten = payload4to6 t em inner in
            if not (is_none rewritten.1)
            then observe p Kind.drop Reason.embedded_untranslatable
            else send_error4to6 p head inner rewritten.0.payload
      ]

  -- The mapping of the embedded packet's addresses; both are looked up.
  unfoldable pub map_embedded4to6 : Pkt → Pkt → Act S
  map_embedded4to6 p em = do
    em_src ← map4to6 env (slice 12 16 em.ip)
    em_dst ← map4to6 env (slice 16 20 em.ip)
    elim em_src [
      | err _ ↦ observe p Kind.drop Reason.embedded_unmappable
      | ok src6 ↦ elim em_dst [
        | err _ ↦ observe p Kind.drop Reason.embedded_unmappable
        | ok dst6 ↦ error_head4to6 p em src6 dst6
      ]
    ]

  unfoldable pub xlate4to6_icmp_error : Pkt → Act S
  xlate4to6_icmp_error p = elim (embedded4 p) [
    | none ↦ observe p Kind.drop Reason.embedded_too_short
    | some raw ↦
        let parsed = parse_ipv4 (new_pkt raw) in
        let em = parsed.0 in
        if not (is_none parsed.1)
        then observe p Kind.drop Reason.embedded_parse_failed
        else if em.proto == proto_icmp && not (byte_at em.payload 0 == 8)
        then observe p Kind.drop Reason.icmp_error_of_icmp_error
        else map_embedded4to6 p
            (record em { payload = take (mtu_min - 2 * ipv6_hdr_len - icmp_hdr_len) em.payload })
  ]
