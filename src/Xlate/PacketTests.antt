-- ===== src/Xlate/PacketTests.antt =====
-- Runs of the translation of whole packets.
use clatto.Base.{false, ℕ, ◌+◌, refl, arith, true, [], ◌∷◌, Bytes, none, err}
use clatto.Netutil.{Addr4, Addr6}
use clatto.Xlate.Packet.{Pkt}
use clatto.Xlate.Translator.{Translator, Config, UdpChecksumMode, MapError, Env, World}
use clatto.Xlate.V4.Errors.{error_packet4to6}
use clatto.Xlate.V4.ErrorPackets.{error_packet4to6-IsIcmp6}
use clatto.Xlate.V4.Generated.{IsIcmp4}
use clatto.Xlate.V6.Generated.{IsIcmp6}
use clatto.Xlate.V6.Header.{header6to4, dec_ttl}
use clatto.Xlate.V6.Payload.{payload6to4}
use clatto.Xlate.V6.Errors.{error_packet6to4}
use clatto.Xlate.V6.Data.{data6to4}
use clatto.Xlate.V6.ErrorPackets.{proto_of, error_packet6to4-IsIcmp4}
use clatto.Xlate.V6.DataPackets.{Sent, data6to4-Sent}

abbrev config : Config
config = record {
  local_addr4 = (192, 0, 0, 1);
  local_addr6 = (0x20, 1, 0x0d, 0xb8, 0, 0, 0, 0, 0, 0, 0, 0, 0, 0, 0, 1);
  mtu = 1500;
  offlink_mtu = 1280;
  udp_checksum = UdpChecksumMode.calc;
}

abbrev translator : Translator
translator = record { cfg = config; local4 = config.local_addr4; local6 = config.local_addr6 }

-- A mapper that refuses all, an emitter that takes all.
abbrev env : Env ℕ
env = record {
  map_ipv4_to_ipv6 = λ s a. (err MapError.rejected, s);
  map_ipv6_to_ipv4 = λ s a allocate. (err MapError.rejected, s);
  accepts = λ trace n. true;
  rand32 = λ n. 70000 + n;
}

abbrev world : World ℕ
world = record { mapper = 0; draws = 0; trace = [] }

abbrev message : Bytes → ℕ → Pkt
message b proto = record {
  raw = [];
  ip = 96 ∷ 0 ∷ 0 ∷ 0 ∷ 0 ∷ 12 ∷ proto ∷ 64 ∷ 61 ∷ [];
  hdr_len = 0;
  payload = b;
  proto = proto;
  frag = none;
  icmp = false;
}

abbrev host : Addr6
host = (0x20, 1, 0x0d, 0xb8, 0, 0, 0, 0, 0, 0, 0, 0, 0, 0, 0, 9)

abbrev host4 : Addr4
host4 = (198, 51, 100, 7)

abbrev forty : Bytes
forty =
    96 ∷ 0 ∷ 0 ∷ 0 ∷ 0 ∷ 4 ∷ 17 ∷ 9 ∷ 0 ∷ 0 ∷ 0 ∷ 0 ∷ 0 ∷ 0 ∷ 0 ∷ 0 ∷ 0 ∷ 0 ∷ 0 ∷ 1 ∷ 0 ∷ 0 ∷ 0 ∷ 0
    ∷ 0 ∷ 0 ∷ 0 ∷ 0 ∷ 0 ∷ 0 ∷ 0 ∷ 0 ∷ 0 ∷ 0 ∷ 0 ∷ 0 ∷ 0 ∷ 0 ∷ 0 ∷ 2 ∷ []

error_packet4to6-IsIcmp6_example :
    IsIcmp6 (error_packet4to6 (message [] 1) (1, 4, 0) forty (5 ∷ 6 ∷ 7 ∷ []) host host)
error_packet4to6-IsIcmp6_example =
    error_packet4to6-IsIcmp6 (message [] 1) (1, 4, 0) forty (5 ∷ 6 ∷ 7 ∷ []) host host
      (record {
        is_icmp = refl;
        ip_tos = omega arith;
        ip_ttl = omega arith;
        src_bytes = ground arith;
        dst_bytes = ground arith;
        typ_byte = omega arith;
        code_byte = omega arith;
        inner_bytes = ground arith;
        inner_long = refl;
        em_bytes = ground arith;
        fits = omega arith;
      })

error_packet6to4-IsIcmp4_example : IsIcmp4 (
    error_packet6to4
      (header6to4 env (message [] 58) 51 host4 host4 world).0
      (3, 1, 0)
      forty
      (5 ∷ 6 ∷ 7 ∷ []))
error_packet6to4-IsIcmp4_example =
    error_packet6to4-IsIcmp4 env (message [] 58) (3, 1, 0) forty (5 ∷ 6 ∷ 7 ∷ []) host4 host4 world
      (record {
        hop_limit = omega arith;
        proto_byte = omega arith;
        src_bytes = ground arith;
        dst_bytes = ground arith;
        fits = omega arith;
      })
      refl (omega arith) (omega arith) (ground arith)

abbrev tcp : Pkt
tcp =
    message (1 ∷ 2 ∷ 3 ∷ 4 ∷ 0 ∷ 0 ∷ 0 ∷ 1 ∷ 0 ∷ 0 ∷ 0 ∷ 2 ∷ 80 ∷ 16 ∷ 8 ∷ 0 ∷ 7 ∷ 7 ∷ 0 ∷ 0 ∷ []) 6

data6to4-Sent_example :
    Sent env.accepts tcp
      (proto_of tcp)
      (payload6to4 translator tcp (dec_ttl (header6to4 env tcp 20 host4 host4 world).0)).0.payload
      (payload6to4 translator tcp (dec_ttl (header6to4 env tcp 20 host4 host4 world).0)).1
      []
      (data6to4 env translator tcp host4 host4 world).1.trace
data6to4-Sent_example =
    data6to4-Sent env translator tcp host4 host4 world
      (record {
        hop_limit = omega arith;
        proto_byte = omega arith;
        src_bytes = ground arith;
        dst_bytes = ground arith;
        fits = omega arith;
      })
      (omega arith)
