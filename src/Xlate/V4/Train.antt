-- ===== src/Xlate/V4/Train.antt =====
-- What `xlate4to6Data` sends for a packet that it fragments.
use mathlib.Core.List.{flatten}
use clatto.Base.{
  ℕ, suc, ◌+◌, ◌-◌, ◌*◌, ◌%◌, ◌≤◌, ◌<◌, ◌≡◌, ◌∙◌, refl, arith, true, List, ◌∷◌, map, min, Bytes,
  length, byte_at, bit_and, bit_and_mask, set, length-set,
}
use clatto.Xlate.Packet.{Pkt, has, ip4_flags_off, ip4_flag_mf, ip4_off_mask, proto_frag}
use clatto.Xlate.Translator.{Translator, Config, Env, World, Output, translated}
use clatto.Xlate.V4.Fragments.{Plan, emit4to6, frag_size, frag_header, clear_low3}
use clatto.Xlate.V4.Reassembly.{
  IsTrain, chunk_of, sent_after, fragments, frag_loop-fragments, flatten-fragments,
  fragments-IsTrain,
}

-- The most payload that one fragment carries.
abbrev pub chunk_size : Config → ℕ
chunk_size c = clear_low3 (frag_size c - 8)

-- Both MTUs are at least the minimum, as the configuration requires.
pub record IsConfig (c : Config) : Type 0 where
  pub mtu_min : 1280 ≤ c.mtu
  pub offlink_min : 1280 ≤ c.offlink_mtu

chunk_size_lem :
    (c : Config)
    → IsConfig c
    → (0 < chunk_size c) × (chunk_size c % 8 ≡ 0) × (48 + chunk_size c ≤ min c.offlink_mtu c.mtu)
unfolding frag_size
chunk_size_lem c v =
    omega (arith, bit_and_mask 3 (min c.offlink_mtu c.mtu - 40 - 8), v.mtu_min, v.offlink_min)

-- The byte offset of the packet itself.
abbrev pub offset_in : Pkt → ℕ
offset_in p = bit_and (ip4_flags_off p.ip) ip4_off_mask * 8

-- With an emitter that takes every packet, MTUs of at least 1280 and offsets and lengths that fit 16
-- bits, a packet that needs a fragment header leaves as a train of IPv6 fragments: their payloads put
-- together are its payload, their offsets follow one another from its own, "more fragments" is set on
-- all but the last and there as it came, every fragment fits both MTUs, and one translated packet is
-- counted.
pub emit4to6-IsTrain :
    {S : Type 0} (env : Env S) (t : Translator) (p : Pkt) (h : Bytes) (w : World S)
    → ((trace : List Output) (n : ℕ) → env.accepts trace n ≡ true)
    → IsConfig t.cfg
    → length h ≡ 40
    → offset_in p + length p.payload < 65536
    → length p.payload + 8 < 65536
    → (fs : List Bytes) × (emit4to6 env t Plan.fragmented p h w ≡ (
      tt,
      record w { trace = translated 4 (p.hdr_len + length p.payload) ∷ sent_after fs w.trace },
    ))
      × (flatten (map chunk_of fs) ≡ p.payload)
      × IsTrain (chunk_size t.cfg) (has (ip4_flags_off p.ip) ip4_flag_mf) (offset_in p) fs
      × (48 + chunk_size t.cfg ≤ min t.cfg.offlink_mtu t.cfg.mtu)
unfolding emit4to6
emit4to6-IsTrain env t p h w all v lh fits small =
    let size = chunk_size_lem t.cfg v in
    let mf = has (ip4_flags_off p.ip) ip4_flag_mf in
    let h' = set h 6 proto_frag in
    let fh = frag_header p (byte_at h 6) in
    let lh' : length h' ≡ 40 = length-set h 6 proto_frag ∙ lh in
    let lf : length fh ≡ 8 = unfold frag_header in refl in
    let fuel = suc (length p.payload) in
    (
      fragments fuel h' fh (chunk_size t.cfg) mf (offset_in p) p.payload,
      rw (
          frag_loop-fragments env all fuel h' fh (chunk_size t.cfg) mf (offset_in p) p.payload w
            (omega arith) size.0),
      flatten-fragments h' fh lh' lf (chunk_size t.cfg) mf size.0 size.1 fuel (offset_in p)
          p.payload (omega arith),
      fragments-IsTrain h' fh lh' lf (chunk_size t.cfg) mf size.0 size.1 fuel (offset_in p)
          p.payload (omega arith) (λ _. omega arith) fits small,
      size.2,
    )
