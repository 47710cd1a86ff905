-- ===== src/Xlate/V4/Fragments.antt =====
-- `xlate4to6Data`: packets other than ICMP errors, and their fragmentation.
use clatto.Base.{
  ℕ, zero, suc, ◌+◌, ◌-◌, ◌*◌, ◌==◌, ltb, leb, min, if◌then◌else◌, Bool, true, false, not, ◌||◌,
  Bytes, ◌∷◌, ◌++◌, length, byte_at, take, drop, slice, set, bytes32, put16, bit_and, bit_or, u16,
  ok, err,
}
use clatto.Netutil.{Addr6}
use clatto.Xlate.Events.{Reason, Kind, is_none}
use clatto.Xlate.Packet.{
  Pkt, has, ip4_flags_off, ip4_ident, ipv6_hdr_len, frag_hdr_len, mtu_adj, ip4_flag_df, ip4_flag_mf,
  ip4_off_mask, ip6_frag_mf, proto_frag,
}
use clatto.Xlate.Translator.{
  Translator, Config, MapError, rejected, dropped, Env, M, Act, send, observe, done, return,
  translated_as, map4to6, ◌>>=◌, ◌>>◌,
}
use clatto.Xlate.V4.Icmp.{send_icmp4_error}
use clatto.Xlate.V4.Header.{header4to6, dec_hop_limit}
use clatto.Xlate.V4.Payload.{payload4to6}

-- `fragSize`, at the start. The configuration has both MTUs at 1280 or more, so that no subtraction
-- goes below 0.
unfoldable pub frag_size : Config → ℕ
frag_size c = min c.offlink_mtu c.mtu - ipv6_hdr_len

-- `x &^ 7`.
abbrev pub clear_low3 : ℕ → ℕ
clear_low3 x = x - bit_and x 7

-- What the decision on a fragment header says: none, one, or that the packet is too big.
pub data Plan : Type 0 where
  too_big whole fragmented : Plan

unfoldable pub plan4to6 : Config → Pkt → Plan
plan4to6 c p =
    let fo = ip4_flags_off p.ip in
    if bit_and fo 0x3fff == 0
    then (if has fo ip4_flag_df
        then (if ltb (c.mtu - mtu_adj) (p.hdr_len + length p.payload)
            then Plan.too_big
            else Plan.whole)
        else if leb (length p.payload) (frag_size c)
        then Plan.whole
        else Plan.fragmented)
    else Plan.fragmented

-- One fragment: the IPv6 header `h` and the fragment header `fh` with their length, offset and flags
-- filled in, and `n` bytes of payload.
unfoldable pub fragment : Bytes → Bytes → ℕ → ℕ → Bool → Bytes → Bytes
fragment h fh n off more chunk =
    let flags = if more then bit_or (u16 off) ip6_frag_mf else u16 off in
    put16 h 4 (u16 (frag_hdr_len + n)) ++ (put16 fh 2 flags ++ chunk)

-- The fragment header before the loop: `next` is the protocol.
unfoldable pub frag_header : Pkt → ℕ → Bytes
frag_header p next = next ∷ 0 ∷ 0 ∷ 0 ∷ bytes32 (ip4_ident p.ip)

module _ {S : Type 0} (env : Env S) where
  -- The loop over the payload, with fuel; false where it stops early.
  unfoldable pub frag_loop : ℕ → Bytes → Bytes → ℕ → Bool → ℕ → Bytes → M S Bool
  frag_loop zero h fh size orig_mf off rest = return false
  frag_loop (suc fuel) h fh size orig_mf off rest =
      let n = min size (length rest) in
      let again = frag_loop fuel h fh size orig_mf (off + n) (drop n rest) in
      if length rest == 0 then return true else (do
        sent ← send env (fragment h fh n off (ltb n (length rest) || orig_mf) (take n rest))
        if sent then again else return false)

  -- What happens to the packet with its header `h` and its transport header rewritten.
  unfoldable pub emit4to6 : Translator → Plan → Pkt → Bytes → Act S
  emit4to6 t Plan.fragmented p h = do
    let fo = ip4_flags_off p.ip
    let size = clear_low3 (frag_size t.cfg - frag_hdr_len)
    finished ←
        frag_loop (suc (length p.payload)) (set h 6 proto_frag) (frag_header p (byte_at h 6)) size
          (has fo ip4_flag_mf) (bit_and fo ip4_off_mask * 8) p.payload
    if finished then translated_as 4 (p.hdr_len + length p.payload) else done
  emit4to6 t _ p h = do
    sent ← send env (h ++ p.payload)
    if sent then translated_as 4 (p.hdr_len + length p.payload) else done

  -- From the mapped addresses on.
  unfoldable pub data4to6 : Translator → Pkt → Addr6 → Addr6 → Act S
  data4to6 t p src6 dst6 =
      let h = dec_hop_limit (header4to6 p (length p.payload) src6 dst6) in
      let rewritten = payload4to6 t p h in
      let rest =
        if not (is_none rewritten.1)
        then observe p Kind.drop rewritten.1
        else emit4to6 t (plan4to6 t.cfg p) rewritten.0 h in
      elim (plan4to6 t.cfg p) [
        | Plan.too_big ↦ do
          observe p Kind.icmp Reason.packet_too_big
          send_icmp4_error env t 3 4 (t.cfg.mtu - mtu_adj) p
        | _ ↦ rest
      ]

  -- An address that has no mapping: an ICMP error with `code`, or silence.
  unfoldable pub unmappable4 : Translator → Pkt → Reason → ℕ → MapError → Act S
  unmappable4 t p reason code rejected = do
    observe p Kind.reject reason
    send_icmp4_error env t 3 code 0 p
  unmappable4 t p reason code dropped = observe p Kind.drop reason

  unfoldable pub xlate4to6_data : Translator → Pkt → Act S
  xlate4to6_data t p = do
    dst ← map4to6 env (slice 16 20 p.ip)
    elim dst [
      | err e ↦ unmappable4 t p Reason.destination_unmappable 1 e
      | ok dst6 ↦ do
        src ← map4to6 env (slice 12 16 p.ip)
        elim src [
          | err e ↦ unmappable4 t p Reason.source_unmappable 10 e
          | ok src6 ↦ data4to6 t p src6 dst6
        ]
    ]
