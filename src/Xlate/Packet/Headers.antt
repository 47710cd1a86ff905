-- ===== src/Xlate/Packet/Headers.antt =====
-- The extension header loop of `parseIPv6`: its fuel is enough, and what it leaves.
use clatto.Base.{
  ℕ, zero, suc, ◌+◌, ◌<◌, ◌≤◌, ◌≡◌, arith, refl, true, false, Bool-cases, inl, inr, length,
  length-drop,
}
use native.Mathlib.Nat.{le_refl}
use clatto.Xlate.Packet.Parse6.{Ext, ExtEnd, ext_loop, skip_ext, is_ext, ext_len, too_short}

skip_ext-rest :
    (e : Ext)
    → too_short e.rest ≡ false
    → (length (skip_ext e).rest + ext_len e.rest ≡ length e.rest)
      × ((skip_ext e).hdr_len ≡ e.hdr_len + ext_len e.rest)
unfolding skip_ext
skip_ext-rest e h = ground (arith, length-drop (ext_len e.rest) e.rest)

-- The variables where a loop that starts with `e` ends: what is counted as header is what `data` has
-- lost.
pub record EndsAt (e o : Ext) : Type 0 where
  pub conserved : o.hdr_len + length o.rest ≡ e.hdr_len + length e.rest
  pub advanced : e.hdr_len ≤ o.hdr_len

EndsAt-skip_ext : (e o : Ext) → too_short e.rest ≡ false → EndsAt (skip_ext e) o → EndsAt e o
EndsAt-skip_ext e o h n = ground (arith, skip_ext-rest e h, n)

abbrev pub LoopEnd : Ext → ExtEnd → Type 0
LoopEnd e (ExtEnd.done o) = EndsAt e o × (is_ext o.proto ≡ false)
LoopEnd e (ExtEnd.short o) = EndsAt e o × ((is_ext o.proto ≡ true) × (too_short o.rest ≡ true))
LoopEnd e ExtEnd.no_fuel = ⊥

LoopEnd-skip_ext :
    (e : Ext) (r : ExtEnd) → too_short e.rest ≡ false → LoopEnd (skip_ext e) r → LoopEnd e r
LoopEnd-skip_ext e (ExtEnd.done o) h n = (EndsAt-skip_ext e o h n.0, n.1)
LoopEnd-skip_ext e (ExtEnd.short o) h n = (EndsAt-skip_ext e o h n.0, n.1)
LoopEnd-skip_ext e ExtEnd.no_fuel h n = n

-- With more fuel than bytes, the loop over the extension headers comes to its end: at a header that
-- is none of the three, or at one of them that is too short for its own length; and the length of
-- the headers that it has counted is the number of bytes that it has taken off `data`.
pub ext_loop-LoopEnd : (fuel : ℕ) (e : Ext) → length e.rest < fuel → LoopEnd e (ext_loop fuel e)
unfolding ext_loop
ext_loop-LoopEnd zero e h = absurd (omega arith)
ext_loop-LoopEnd (suc fuel) e h = elim (Bool-cases (is_ext e.proto)) [
  | inr k ↦ rw k (record { conserved = refl; advanced = le_refl _ }, k)
  | inl k ↦ elim (Bool-cases (too_short e.rest)) [
    | inl l ↦ rw (k, l) (record { conserved = refl; advanced = le_refl _ }, (k, l))
    | inr l ↦
        rw (k, l)
          (LoopEnd-skip_ext e _ l
            (ext_loop-LoopEnd fuel (skip_ext e) (omega (arith, skip_ext-rest e l))))
  ]
]
