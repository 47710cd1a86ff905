-- ===== src/Xlate/MessageTests.antt =====
-- Runs of the parsers, of the fragmentation and of the generated messages on concrete packets.
use mathlib.Core.List.{flatten}
use clatto.Base.{
  ℕ, zero, suc, ◌+◌, ◌≤◌, ◌≡◌, ◌⊎◌, refl, arith, true, false, min, map, List, [], ◌∷◌, ◌++◌, Bytes,
  length, none, err,
}
use clatto.Netutil.{valid6, classify4}
use clatto.Xlate.Events.{Reason}
use clatto.Xlate.Packet.{Pkt, new_pkt, has, ip4_flags_off, ip4_flag_mf}
use clatto.Xlate.Packet.Parse4.{parse_ipv4, bad_header4, check_proto4, is_invalid4}
use clatto.Xlate.Packet.Parse6.{
  Ext, ext_loop, parse_ipv6, skip_ext, after_ext, check_frag, check_proto6,
}
use clatto.Xlate.Packet.Headers.{LoopEnd, ext_loop-LoopEnd}
use clatto.Xlate.Packet.Frames4.{IsFrame4, parse_ipv4-IsFrame4}
use clatto.Xlate.Packet.Frames6.{IsFrame6, parse_ipv6-IsFrame6}
use clatto.Xlate.Translator.{
  Translator, Config, UdpChecksumMode, MapError, Env, World, packet, translated,
}
use clatto.Xlate.V4.Icmp.{icmp4_packet, send_icmp4_error}
use clatto.Xlate.V4.Generated.{IsIcmp4, icmp4_packet-IsIcmp4}
use clatto.Xlate.V4.Errors.{mtu4to6}
use clatto.Xlate.V4.Bounds.{mtu4to6-bounds, send_icmp4_error-bound}
use clatto.Xlate.V4.Fragments.{Plan, emit4to6}
use clatto.Xlate.V4.Reassembly.{IsTrain, chunk_of, sent_after}
use clatto.Xlate.V4.Train.{emit4to6-IsTrain, chunk_size, offset_in}
use clatto.Xlate.V6.Icmp.{icmp6_packet}
use clatto.Xlate.V6.Generated.{IsIcmp6, icmp6_packet-IsIcmp6}

abbrev config : Config
config = record {
  local_addr4 = (192, 0, 0, 1);
  local_addr6 = (0x20, 1, 0x0d, 0xb8, 0, 0, 0, 0, 0, 0, 0, 0, 0, 0, 0, 1);
  mtu = 1500;
  offlink_mtu = 1280;
  udp_checksum = UdpChecksumMode.calc;
}

abbrev translator : Translator
translator = record { cfg = config; local4 = config.local_addr4; local6 = config.local_addr6 }

-- A mapper that refuses all, an emitter that takes all.
abbrev env : Env ℕ
env = record {
  map_ipv4_to_ipv6 = λ s a. (err MapError.rejected, s);
  map_ipv6_to_ipv4 = λ s a allocate. (err MapError.rejected, s);
  accepts = λ trace n. true;
  rand32 = λ n. n;
}

abbrev world : World ℕ
world = record { mapper = 0; draws = 0; trace = [] }

-- A UDP packet, and the same with bytes behind its end.
abbrev raw4 : Bytes
raw4 =
    69 ∷ 0 ∷ 0 ∷ 32 ∷ 18 ∷ 52 ∷ 0 ∷ 0 ∷ 64 ∷ 17 ∷ 124 ∷ 93 ∷ 192 ∷ 0 ∷ 2 ∷ 1 ∷ 198 ∷ 51 ∷ 100 ∷ 7
    ∷ 48 ∷ 57 ∷ 0 ∷ 53 ∷ 0 ∷ 12 ∷ 223 ∷ 37 ∷ 1 ∷ 2 ∷ 3 ∷ 4 ∷ 9 ∷ 9 ∷ []

-- A UDP packet behind a header of destination options.
abbrev raw6 : Bytes
raw6 =
    96 ∷ 0 ∷ 0 ∷ 0 ∷ 0 ∷ 16 ∷ 60 ∷ 64 ∷ 32 ∷ 1 ∷ 13 ∷ 184 ∷ 0 ∷ 0 ∷ 0 ∷ 0 ∷ 0 ∷ 0 ∷ 0 ∷ 0 ∷ 192 ∷ 0
    ∷ 2 ∷ 1 ∷ 32 ∷ 1 ∷ 13 ∷ 184 ∷ 0 ∷ 0 ∷ 0 ∷ 0 ∷ 0 ∷ 0 ∷ 0 ∷ 0 ∷ 198 ∷ 51 ∷ 100 ∷ 7 ∷ 17 ∷ 0 ∷ 1
    ∷ 4 ∷ 0 ∷ 0 ∷ 0 ∷ 0 ∷ 48 ∷ 57 ∷ 0 ∷ 53 ∷ 0 ∷ 8 ∷ 0 ∷ 0 ∷ []

parsed4 : parse_ipv4 (new_pkt raw4) ≡ ((parse_ipv4 (new_pkt raw4)).0, Reason.none)
unfolding parse_ipv4 bad_header4 check_proto4 is_invalid4 classify4
parsed4 = refl

parsed6 : (parse_ipv6 (new_pkt raw6)).reason ≡ Reason.none
unfolding parse_ipv6 valid6 ext_loop skip_ext after_ext check_frag check_proto6
parsed6 = refl

parse_ipv4-IsFrame4_example : IsFrame4 raw4 (parse_ipv4 (new_pkt raw4)).0
parse_ipv4-IsFrame4_example = parse_ipv4-IsFrame4 raw4 (parse_ipv4 (new_pkt raw4)).0 parsed4

parse_ipv6-IsFrame6_example : IsFrame6 raw6 (parse_ipv6 (new_pkt raw6)).pkt
parse_ipv6-IsFrame6_example = parse_ipv6-IsFrame6 raw6 parsed6

-- Hop-by-hop options before a routing header that is too short.
abbrev two_headers : Ext
two_headers = record {
  proto = 0;
  rest = 43 ∷ 0 ∷ 0 ∷ 0 ∷ 0 ∷ 0 ∷ 0 ∷ 0 ∷ 17 ∷ 9 ∷ 0 ∷ 0 ∷ [];
  hdr_len = 0;
  seg_left = 0;
  seg_ptr = 40;
}

ext_loop-LoopEnd_example : LoopEnd two_headers (ext_loop 13 two_headers)
ext_loop-LoopEnd_example = ext_loop-LoopEnd 13 two_headers (omega arith)

icmp4_packet-IsIcmp4_example :
    IsIcmp4 (icmp4_packet 0 (192 ∷ 0 ∷ 0 ∷ 1 ∷ []) (10 ∷ 0 ∷ 0 ∷ 2 ∷ []) 3 1 0 (69 ∷ 0 ∷ 0 ∷ []))
icmp4_packet-IsIcmp4_example =
    icmp4_packet-IsIcmp4 0 (192 ∷ 0 ∷ 0 ∷ 1 ∷ []) (10 ∷ 0 ∷ 0 ∷ 2 ∷ []) 3 1 0 (69 ∷ 0 ∷ 0 ∷ [])
      (omega arith) (ground arith) (omega arith) (ground arith) (omega arith) (omega arith)
      (omega arith) (ground arith) (omega arith)

abbrev local16 : Bytes
local16 = 32 ∷ 1 ∷ 13 ∷ 184 ∷ 0 ∷ 0 ∷ 0 ∷ 0 ∷ 0 ∷ 0 ∷ 0 ∷ 0 ∷ 0 ∷ 0 ∷ 0 ∷ 1 ∷ []

icmp6_packet-IsIcmp6_example : IsIcmp6 (icmp6_packet 0 local16 local16 1 3 0 (96 ∷ 0 ∷ 0 ∷ []))
icmp6_packet-IsIcmp6_example =
    icmp6_packet-IsIcmp6 0 local16 local16 1 3 0 (96 ∷ 0 ∷ 0 ∷ []) (omega arith) (ground arith)
      (omega arith) (ground arith) (omega arith) (omega arith) (omega arith) (ground arith)
      (omega arith)

mtu4to6-bounds_example :
    (1280 ≤ mtu4to6 config 1400 raw4) × (1280 ≤ 1500 → mtu4to6 config 1400 raw4 ≤ 1500)
mtu4to6-bounds_example = mtu4to6-bounds config 1400 raw4

send_icmp4_error-bound_example :
    ((send_icmp4_error env translator 3 1 0 (parse_ipv4 (new_pkt raw4)).0 world).1 ≡ world)
    ⊎ ((b : Bytes) × (((send_icmp4_error env translator 3 1 0 (parse_ipv4 (new_pkt raw4)).0 world).1
            ≡ record world { trace = packet b ∷ [] })
          × (length b ≤ 576)))
send_icmp4_error-bound_example =
    send_icmp4_error-bound env translator 3 1 0 (parse_ipv4 (new_pkt raw4)).0 world

-- Bytes that need two fragments.
abbrev ones : ℕ → Bytes
ones zero = []
ones (suc n) = 1 ∷ ones n

abbrev big : Pkt
big = record {
  raw = [];
  ip = raw4;
  hdr_len = 20;
  payload = ones 1400;
  proto = 17;
  frag = none;
  icmp = false;
}

abbrev header40 : Bytes
header40 = 96 ∷ 0 ∷ 0 ∷ 0 ∷ 0 ∷ 16 ∷ 17 ∷ 64 ∷ (local16 ++ local16)

emit4to6-IsTrain_example :
    (fs : List Bytes) × (emit4to6 env translator Plan.fragmented big header40 world
      ≡ (tt, record world { trace = translated 4 (20 + length big.payload) ∷ sent_after fs [] }))
    × (flatten (map chunk_of fs) ≡ big.payload)
    × IsTrain (chunk_size config) (has (ip4_flags_off big.ip) ip4_flag_mf) (offset_in big) fs
    × (48 + chunk_size config ≤ min 1280 1500)
emit4to6-IsTrain_example =
    emit4to6-IsTrain env translator big header40 world (λ trace n. refl)
      (record { mtu_min = omega arith; offlink_min = omega arith }) refl (omega arith) (omega arith)
