-- ===== src/Xlate/Tests.antt =====
-- Runs of the translator's parts on concrete packets.
use clatto.Base.{◌≡◌, refl, inl, inr, arith, true, false, [], ◌∷◌, Bytes, ℕ, ◌+◌, put16, none}
use clatto.Xlate.Checksum.Fold.{ones_sum}
use clatto.Xlate.Checksum.{
  sum16, sum16_words, fold, fold32, fold16, checksum, verify, adjust, pseudo4, pseudo6, nonzero,
}
use clatto.Xlate.Checksum.Sums.{word_sum, fold-sum16}
use clatto.Xlate.Checksum.Update.{verify-checksum, verify-adjust}
use clatto.Xlate.Events.{Reason}
use clatto.Xlate.Packet.{Pkt, proto_icmp6}
use clatto.Xlate.Translator.{Translator, Config, UdpChecksumMode}
use clatto.Xlate.V4.Payload.{payload4to6, echo4to6}
use clatto.Xlate.V4.Checksums.{payload4to6-verify, Translatable4, pseudo_of4, pseudo_of6}
use clatto.Base.{slice, set}
use clatto.Xlate.V4.Echo.{echo4to6-verify}
use clatto.Xlate.V6.Payload.{payload6to4, later_fragment, echo6to4}
use clatto.Xlate.V6.Checksums
use clatto.Xlate.V6.Checksums.{payload6to4-verify, Translatable6}
use clatto.Xlate.V6.Echo.{echo6to4-verify, echo6to4-blank, EchoReady6, pseudo_icmp6}

abbrev udp_bytes : Bytes
udp_bytes = 48 ∷ 57 ∷ 0 ∷ 53 ∷ 0 ∷ 12 ∷ 223 ∷ 37 ∷ 1 ∷ 2 ∷ 3 ∷ 4 ∷ []

abbrev ip4_bytes : Bytes
ip4_bytes =
    69 ∷ 0 ∷ 0 ∷ 32 ∷ 18 ∷ 52 ∷ 0 ∷ 0 ∷ 64 ∷ 17 ∷ 124 ∷ 93 ∷ 192 ∷ 0 ∷ 2 ∷ 1 ∷ 198 ∷ 51 ∷ 100 ∷ 7
    ∷ []

abbrev ip6_bytes : Bytes
ip6_bytes =
    96 ∷ 0 ∷ 0 ∷ 0 ∷ 0 ∷ 12 ∷ 17 ∷ 64 ∷ 32 ∷ 1 ∷ 13 ∷ 184 ∷ 0 ∷ 0 ∷ 0 ∷ 0 ∷ 0 ∷ 0 ∷ 0 ∷ 0 ∷ 192 ∷ 0
    ∷ 2 ∷ 1 ∷ 32 ∷ 1 ∷ 13 ∷ 184 ∷ 0 ∷ 0 ∷ 0 ∷ 0 ∷ 0 ∷ 0 ∷ 0 ∷ 0 ∷ 198 ∷ 51 ∷ 100 ∷ 7 ∷ []

abbrev config : Config
config = record {
  local_addr4 = (192, 0, 0, 1);
  local_addr6 = (0x20, 1, 0x0d, 0xb8, 0, 0, 0, 0, 0, 0, 0, 0, 0, 0, 0, 1);
  mtu = 1500;
  offlink_mtu = 1280;
  udp_checksum = UdpChecksumMode.calc;
}

abbrev translator : Translator
translator = record { cfg = config; local4 = config.local_addr4; local6 = config.local_addr6 }

abbrev udp4 : Pkt
udp4 = record {
  raw = [];
  ip = ip4_bytes;
  hdr_len = 20;
  payload = udp_bytes;
  proto = 17;
  frag = none;
  icmp = false;
}

header_valid : verify ip4_bytes 0 ≡ true
unfolding verify sum16 sum16_words fold fold32 fold16
header_valid = refl

udp_valid : verify udp_bytes (pseudo_of4 udp4) ≡ true
unfolding verify sum16 sum16_words fold fold32 fold16 pseudo4
udp_valid = refl

udp4_ready : Translatable4 udp4 ip6_bytes
unfolding sum16 sum16_words
udp4_ready = record {
  ip_bytes = ground arith;
  ip_long = omega arith;
  payload_bytes = ground arith;
  payload_fits = omega arith;
  header_bytes = ground arith;
  header_long = omega arith;
  addressed = omega arith;
  first = refl;
}

payload4to6_none : (payload4to6 translator udp4 ip6_bytes).1 ≡ Reason.none
unfolding payload4to6
payload4to6_none = refl

fold-sum16_example : fold (sum16 udp_bytes 17) ≡ ones_sum (17 + word_sum udp_bytes)
fold-sum16_example = fold-sum16 udp_bytes 17 (ground arith) (omega arith)

payload4to6-verify_example :
    verify (payload4to6 translator udp4 ip6_bytes).0.payload (pseudo_of6 udp4 ip6_bytes) ≡ true
payload4to6-verify_example =
    payload4to6-verify translator udp4 ip6_bytes udp4_ready
      (inr (refl, λ e. absurd (omega (arith, e)))) payload4to6_none udp_valid

verify-checksum_example :
    verify (put16 (0 ∷ 1 ∷ 0 ∷ 0 ∷ 7 ∷ []) 2 (checksum (0 ∷ 1 ∷ 0 ∷ 0 ∷ 7 ∷ []) 5)) 5 ≡ true
verify-checksum_example =
    verify-checksum (0 ∷ 1 ∷ 0 ∷ 0 ∷ 7 ∷ []) 2 5 (ground arith) (omega arith) refl (omega arith)
      refl

-- Of the pseudo-header words 6 and 10, the 6 becomes a 9.
adjusted_valid : verify (0 ∷ 1 ∷ 0xff ∷ 0xee ∷ []) 16 ≡ true
unfolding verify sum16 sum16_words fold fold32 fold16
adjusted_valid = refl

verify-adjust_example :
    (verify (put16 (0 ∷ 1 ∷ 0xff ∷ 0xee ∷ []) 2 (adjust 0xffee 6 9)) 19 ≡ true)
    × (verify (put16 (0 ∷ 1 ∷ 0xff ∷ 0xee ∷ []) 2 (nonzero (adjust 0xffee 6 9))) 19 ≡ true)
verify-adjust_example =
    verify-adjust (0 ∷ 1 ∷ 0xff ∷ 0xee ∷ []) 2 6 9 10 16 19 (ground arith) refl (omega arith)
      (omega arith) (omega arith) (omega arith) (omega arith) (omega arith) (ground arith)
      (ground arith) adjusted_valid

abbrev udp6 : Pkt
udp6 = record {
  raw = [];
  ip = ip6_bytes;
  hdr_len = 0;
  payload = 48 ∷ 57 ∷ 0 ∷ 53 ∷ 0 ∷ 12 ∷ 131 ∷ 179 ∷ 1 ∷ 2 ∷ 3 ∷ 4 ∷ [];
  proto = 17;
  frag = none;
  icmp = false;
}

udp6_valid : verify udp6.payload (Checksums.pseudo_of6 udp6) ≡ true
unfolding verify sum16 sum16_words fold fold32 fold16 pseudo6
udp6_valid = refl

udp6_ready : Translatable6 udp6 ip4_bytes
unfolding sum16 sum16_words later_fragment
udp6_ready = record {
  ip_bytes = ground arith;
  ip_long = omega arith;
  payload_bytes = ground arith;
  payload_fits = omega arith;
  header_bytes = ground arith;
  header_long = omega arith;
  addressed = omega arith;
  first = refl;
}

payload6to4_none : (payload6to4 translator udp6 ip4_bytes).1 ≡ Reason.none
unfolding payload6to4 later_fragment
payload6to4_none = refl

payload6to4-verify_example :
    verify (payload6to4 translator udp6 ip4_bytes).0.payload (Checksums.pseudo_of4 udp6 ip4_bytes)
    ≡ true
payload6to4-verify_example =
    payload6to4-verify translator udp6 ip4_bytes udp6_ready
      (inr (refl, λ e. absurd (omega (arith, e)))) payload6to4_none udp6_valid

abbrev echo4 : Pkt
echo4 = record udp4 {
  ip = 69 ∷ 0 ∷ 0 ∷ 30 ∷ [];
  payload = 8 ∷ 0 ∷ 224 ∷ 196 ∷ 18 ∷ 52 ∷ 0 ∷ 1 ∷ 5 ∷ 6 ∷ [];
  proto = 1;
}

echo4_valid : verify echo4.payload 0 ≡ true
unfolding verify sum16 sum16_words fold fold32 fold16
echo4_valid = refl

echo4to6-verify_example :
    verify
      (echo4to6 echo4 ip6_bytes)
      (pseudo6 (slice 8 24 ip6_bytes) (slice 24 40 ip6_bytes) 10 proto_icmp6)
    ≡ true
echo4to6-verify_example =
    echo4to6-verify echo4 ip6_bytes
      (record {
        payload_bytes = ground arith;
        payload_long = omega arith;
        payload_fits = omega arith;
        header_bytes = ground arith;
        header_long = omega arith;
        exact = refl;
      })
      (inl refl) echo4_valid

abbrev echo6 : Bytes → ℕ → Pkt
echo6 b n = record udp6 { ip = set ip6_bytes 5 n; payload = b; proto = 58 }

abbrev reply6 : Pkt
reply6 = echo6 (129 ∷ 0 ∷ 31 ∷ 209 ∷ 18 ∷ 52 ∷ 0 ∷ 1 ∷ 5 ∷ 6 ∷ []) 10

abbrev blank6 : Pkt
blank6 = echo6 (129 ∷ 0 ∷ 55 ∷ 14 ∷ 0 ∷ 0 ∷ 0 ∷ 0 ∷ []) 8

reply6_ready : EchoReady6 reply6
reply6_ready = record {
  payload_bytes = ground arith;
  payload_long = omega arith;
  payload_fits = omega arith;
  ip_bytes = ground arith;
  ip_long = omega arith;
  exact = refl;
}

blank6_ready : EchoReady6 blank6
blank6_ready = record {
  payload_bytes = ground arith;
  payload_long = omega arith;
  payload_fits = omega arith;
  ip_bytes = ground arith;
  ip_long = omega arith;
  exact = refl;
}

reply6_valid :
    (verify reply6.payload (pseudo_icmp6 reply6) ≡ true)
    × (verify blank6.payload (pseudo_icmp6 blank6) ≡ true)
unfolding verify sum16 sum16_words fold fold32 fold16 pseudo6
reply6_valid = (refl, refl)

echo6to4-verify_example : verify (echo6to4 reply6) 0 ≡ true
echo6to4-verify_example =
    echo6to4-verify reply6 reply6_ready (inr refl) (λ h. omega (arith, h.1)) reply6_valid.0

echo6to4-blank_example : verify (echo6to4 blank6) 0 ≡ false
echo6to4-blank_example = echo6to4-blank blank6 blank6_ready (refl, refl) reply6_valid.1
