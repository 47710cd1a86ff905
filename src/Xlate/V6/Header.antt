-- ===== src/Xlate/V6/Header.antt =====
-- `header6to4`.
use clatto.Base.{
  ℕ, ◌+◌, ◌==◌, leb, if◌then◌else◌, ◌∷◌, ◌++◌, Bytes, byte_at, bytes16, u8, u16, ◌>>>◌, bit_or, set,
  dec8, some, none, put16,
}
use clatto.Netutil.{Addr4}
use clatto.Netip.{bytes4}
use clatto.Xlate.Checksum.{checksum}
use clatto.Xlate.Packet.{
  Pkt, has, ip6_ver_tc_fl, frag_ident, frag_off_flags, ipv4_hdr_len, mtu_min, ip6_frag_mf,
  ip4_flag_mf, ip4_flag_df, proto_icmp, proto_icmp6,
}
use clatto.Xlate.Translator.{Env, M, return, random_ident, ◌>>=◌}

-- The 20 bytes, given the words for the identification and for the flags and the offset.
unfoldable pub header4 : Pkt → ℕ → ℕ → ℕ → Addr4 → Addr4 → Bytes
header4 p payload_len ident flags_off src4 dst4 =
    0x45
    ∷ u8 (ip6_ver_tc_fl p.ip >>> 20)
    ∷ (bytes16 (u16 (ipv4_hdr_len + payload_len))
        ++ (bytes16 ident
            ++ (bytes16 flags_off
                ++ byte_at p.ip 7
                  ∷ (if p.proto == proto_icmp6 then proto_icmp else p.proto)
                  ∷ 0
                  ∷ 0
                  ∷ (bytes4 src4 ++ bytes4 dst4))))

-- The flags and the offset of a fragment header, for IPv4.
unfoldable pub carry_frag : Bytes → ℕ
carry_frag f =
    let of = frag_off_flags f in
    let fo = of >>> 3 in if has of ip6_frag_mf then bit_or fo ip4_flag_mf else fo

module _ {S : Type 0} (env : Env S) where
  -- The header checksum is left zero.
  unfoldable pub header6to4 : Pkt → ℕ → Addr4 → Addr4 → M S Bytes
  header6to4 p payload_len src4 dst4 = elim p.frag [
    | some f ↦ return (header4 p payload_len (u16 (frag_ident f)) (carry_frag f) src4 dst4)
    | none ↦
        let large = return (header4 p payload_len 0 ip4_flag_df src4 dst4) in
        if leb (p.hdr_len + payload_len) mtu_min
        then (do ident ← random_ident env; return (header4 p payload_len ident 0 src4 dst4))
        else large
  ]

-- `h[8]--`, the time to live.
abbrev pub dec_ttl : Bytes → Bytes
dec_ttl h = set h 8 (dec8 (byte_at h 8))

-- The header with its checksum.
abbrev pub sealed4 : Bytes → Bytes
sealed4 h = put16 h 10 (checksum h 0)
