-- ===== src/Xlate/V4/Reassembly.antt =====
-- The fragments that `xlate4to6Data` sends can be put together again.
use mathlib.Core.List.{flatten}
use clatto.Base.{
  ℕ, zero, suc, ◌+◌, ◌*◌, ◌/◌, ◌%◌, ◌≤◌, ◌<◌, ◌^◌, ◌≡◌, ◌∙◌, refl, sym, ap, ap₂, ==_iff, arith,
  Bool, true, false, not, ◌||◌, ltb, min, ◌==◌, if◌then◌else◌, List, [], ◌∷◌, ◌++◌, map, Bytes,
  length, take, drop, be16, put16, u16, bit_or, bit_or_fields, get_or-append, get_or-append_right,
  drop-append_length, length-append, length-take, length-drop, take-append-drop, be16-put16,
  drop-drop, Bool-cases, inl, inr,
}
use clatto.Xlate.Checksum.Update.{length-put16}
use clatto.Xlate.Packet.{ip6_payload_len, ip6_frag_mf}
use clatto.Xlate.Translator.{Env, World, Output, packet}
use clatto.Xlate.V4.Fragments.{fragment, frag_loop}

-- The parts of a sent fragment: a header of 40 bytes, a fragment header of 8, and a part of the
-- payload. The word at 42 holds the offset, a multiple of 8, and the flag "more fragments".
abbrev pub chunk_of : Bytes → Bytes
chunk_of f = drop 48 f

abbrev pub offset_of : Bytes → ℕ
offset_of f = be16 f 42 / 8 * 8

abbrev pub more_of : Bytes → ℕ
more_of f = be16 f 42 % 2

abbrev pub flag : Bool → ℕ
flag true = 1
flag false = 0

-- One fragment of a train: where it stands, whether more follow, and its size.
pub record IsFragment (size off : ℕ) (more : Bool) (f : Bytes) : Type 0 where
  pub offset : offset_of f ≡ off
  pub more_follow : more_of f ≡ flag more
  pub not_empty : 0 < length (chunk_of f)
  pub small : length (chunk_of f) ≤ size
  pub exact : 40 + ip6_payload_len f ≡ length f

abbrev pub is_nil : List Bytes → Bool
is_nil [] = true
is_nil (f ∷ fs) = false

-- The fragments follow one another from `off` on; all but the last say that more follow, and have a
-- multiple of 8 bytes. `mf` is the flag of the packet, for the last.
abbrev pub IsTrain : ℕ → Bool → ℕ → List Bytes → Type 0
IsTrain size mf off [] = Unit {0}
IsTrain size mf off (f ∷ fs) =
    IsFragment size off (not (is_nil fs) || mf) f
    × ((is_nil fs ≡ false → length (chunk_of f) ≡ size))
    × IsTrain size mf (off + length (chunk_of f)) fs

pub fragments : ℕ → Bytes → Bytes → ℕ → Bool → ℕ → Bytes → List Bytes
fragments zero h fh size mf off rest = []
fragments (suc fuel) h fh size mf off rest =
    let n = min size (length rest) in
    let again = fragments fuel h fh size mf (off + n) (drop n rest) in
    if length rest == 0
    then []
    else fragment h fh n off (ltb n (length rest) || mf) (take n rest) ∷ again

-- The trace, newest first, after packets are sent in this order.
abbrev pub sent_after : List Bytes → List Output → List Output
sent_after [] trace = trace
sent_after (f ∷ fs) trace = sent_after fs (packet f ∷ trace)

module _ {S : Type 0} (env : Env S)
    (all : (trace : List Output) (n : ℕ) → env.accepts trace n ≡ true) where
  pub frag_loop-fragments :
      (fuel : ℕ) (h fh : Bytes) (size : ℕ) (mf : Bool) (off : ℕ) (rest : Bytes) (w : World S)
      → length rest < fuel
      → 0 < size
      → frag_loop env fuel h fh size mf off rest w
        ≡ (true, record w { trace = sent_after (fragments fuel h fh size mf off rest) w.trace })
  unfolding frag_loop fragments
  frag_loop-fragments zero h fh size mf off rest w l s = absurd (omega arith)
  frag_loop-fragments (suc fuel) h fh size mf off rest w l s =
      elim (Bool-cases (length rest == 0)) [
        | inl e ↦ rw e
        | inr e ↦
            let n = min size (length rest) in
            let f = fragment h fh n off (ltb n (length rest) || mf) (take n rest) in
            rw (e, all w.trace (length f))
              (frag_loop-fragments fuel h fh size mf (off + n) (drop n rest)
                (record w { trace = packet f ∷ w.trace }) (ground (arith, length-drop n rest)) s)
      ]

flags_of : ℕ → Bool → ℕ
flags_of off more = if more then bit_or (u16 off) ip6_frag_mf else u16 off

flags_lem :
    (off : ℕ) (more : Bool) → off % 8 ≡ 0 → off < 65536 → flags_of off more ≡ off + flag more
unfolding flags_of
flags_lem off true e l =
    let half : u16 off ≡ off / 2 * 2 ^ 1 = omega arith in
    rw half (bit_or_fields 1 (off / 2) 1 (omega arith) ∙ omega arith)
flags_lem off false e l = omega arith

-- A packet of two headers, of 40 and of 8 bytes, and a payload.
module _ (a b c : Bytes) (la : length a ≡ 40) (lb : length b ≡ 8) where
  word-42 : be16 (a ++ (b ++ c)) 42 ≡ be16 b 2
  word-42 = omega (
    arith,
    get_or-append_right a (b ++ c) 40 2 0 la,
    get_or-append_right a (b ++ c) 40 3 0 la,
    get_or-append b c 2 0 (omega (arith, lb)),
    get_or-append b c 3 0 (omega (arith, lb)),
  )

  word-4 : be16 (a ++ (b ++ c)) 4 ≡ be16 a 4
  word-4 = omega (
    arith,
    get_or-append a (b ++ c) 4 0 (omega (arith, la)),
    get_or-append a (b ++ c) 5 0 (omega (arith, la)),
  )

  drop-48 : drop 48 (a ++ (b ++ c)) ≡ c
  drop-48 =
      sym (drop-drop 40 8 (a ++ (b ++ c)))
      ∙ ap (drop 8) (drop-append_length 40 a (b ++ c) la)
      ∙ drop-append_length 8 b c lb

  length-parts : length (a ++ (b ++ c)) ≡ 48 + length c
  length-parts = omega (arith, length-append a (b ++ c), length-append b c, la, lb)

flatten-cons : (x : Bytes) (xs : List Bytes) → flatten (x ∷ xs) ≡ x ++ flatten xs
unfolding flatten
flatten-cons x xs = refl

flag_small : (b : Bool) → flag b < 2
flag_small true = omega arith
flag_small false = omega arith

module _ (h fh : Bytes) (lh : length h ≡ 40) (lf : length fh ≡ 8) where
  chunk_of-fragment :
      (n off : ℕ) (more : Bool) (chunk : Bytes) → chunk_of (fragment h fh n off more chunk) ≡ chunk
  unfolding fragment
  chunk_of-fragment n off more chunk =
      drop-48 (put16 h 4 (u16 (8 + n))) (put16 fh 2 _) chunk (length-put16 h 4 (u16 (8 + n)) ∙ lh)
        (length-put16 fh 2 _ ∙ lf)

  fragment-IsFragment :
      (size n off : ℕ) (more : Bool) (chunk : Bytes)
      → length chunk ≡ n
      → off % 8 ≡ 0
      → off < 65536
      → n + 8 < 65536
      → 0 < n
      → n ≤ size
      → IsFragment size off more (fragment h fh n off more chunk)
  unfolding fragment flags_of
  fragment-IsFragment size n off more chunk len e l fits pos small =
      let v = u16 (8 + n) in
      let flags = flags_of off more in
      let head = put16 h 4 v in
      let fhead = put16 fh 2 flags in
      let lhead : length head ≡ 40 = length-put16 h 4 v ∙ lh in
      let lfhead : length fhead ≡ 8 = length-put16 fh 2 flags ∙ lf in
      let value : flags ≡ off + flag more = flags_lem off more e l in
      let bit = flag_small more in
      let word : be16 (head ++ (fhead ++ chunk)) 42 ≡ off + flag more =
        word-42 head fhead chunk lhead lfhead
        ∙ be16-put16 fh 2 flags (omega (arith, value)) (omega (arith, lf))
        ∙ value in
      let same = chunk_of-fragment n off more chunk in
      let total = length-parts head fhead chunk lhead lfhead in
      let stored =
        word-4 head fhead chunk lhead lfhead ∙ be16-put16 h 4 v (omega arith) (omega (arith, lh)) in
      record {
        offset = omega (arith, word, bit);
        more_follow = omega (arith, word, bit);
        not_empty = omega (arith, ap length same, len);
        small = omega (arith, ap length same, len);
        exact = omega (arith, total, stored, len);
      }

  module _ (size : ℕ) (mf : Bool) (pos : 0 < size) (aligned : size % 8 ≡ 0) where
    is_nil-fragments :
        (fuel off : ℕ) (rest : Bytes)
        → length rest < fuel
        → is_nil (fragments fuel h fh size mf off rest) ≡ (length rest == 0)
    unfolding fragments
    is_nil-fragments zero off rest l = absurd (omega arith)
    is_nil-fragments (suc fuel) off rest l = ground arith

    nil_of_length : (rest : Bytes) → (length rest == 0) ≡ true → rest ≡ []
    nil_of_length [] e = refl
    nil_of_length (x ∷ xs) e = absurd (omega (arith, (==_iff _ _).0 e))

    -- One round of the loop, at a payload that is not used up.
    fragments-suc :
        (fuel off : ℕ) (rest : Bytes)
        → (length rest == 0) ≡ false
        → let n = min size (length rest) in
          fragments (suc fuel) h fh size mf off rest
          ≡ fragment h fh n off (ltb n (length rest) || mf) (take n rest)
            ∷ fragments fuel h fh size mf (off + n) (drop n rest)
    unfolding fragments
    fragments-suc fuel off rest e = rw e

    fragments-nil :
        (fuel off : ℕ) (rest : Bytes)
        → (length rest == 0) ≡ true
        → fragments (suc fuel) h fh size mf off rest ≡ []
    unfolding fragments
    fragments-nil fuel off rest e = rw e

    pub flatten-fragments :
        (fuel off : ℕ) (rest : Bytes)
        → length rest < fuel
        → flatten (map chunk_of (fragments fuel h fh size mf off rest)) ≡ rest
    flatten-fragments zero off rest l = absurd (omega arith)
    flatten-fragments (suc fuel) off rest l = elim (Bool-cases (length rest == 0)) [
      | inl e ↦ rw (fragments-nil fuel off rest e) (unfold flatten in sym (nil_of_length rest e))
      | inr e ↦
          let n = min size (length rest) in
          rw (fragments-suc fuel off rest e) (
            flatten-cons _ _
            ∙ ap₂ ◌++◌ (chunk_of-fragment n off (ltb n (length rest) || mf) (take n rest)) (
                flatten-fragments fuel (off + n) (drop n rest) (ground (arith, length-drop n rest)))
            ∙ take-append-drop n rest)
    ]

    more_same :
        (fuel off : ℕ) (rest : Bytes)
        → length rest ≤ fuel
        → (length rest == 0) ≡ false
        → let n = min size (length rest) in
          ltb n (length rest) ≡ not (is_nil (fragments fuel h fh size mf (off + n) (drop n rest)))
    more_same fuel off rest l e =
        let n = min size (length rest) in
        rw (is_nil-fragments fuel (off + n) (drop n rest) (ground (arith, length-drop n rest)))
          (ground (arith, length-drop n rest))

    full_chunk : (l s : ℕ) → ltb (min s l) l ≡ true → min s l ≡ s
    full_chunk l s h = ground arith

    pub fragments-IsTrain :
        (fuel off : ℕ) (rest : Bytes)
        → length rest < fuel
        → (0 < length rest → off % 8 ≡ 0)
        → off + length rest < 65536
        → length rest + 8 < 65536
        → IsTrain size mf off (fragments fuel h fh size mf off rest)
    fragments-IsTrain zero off rest l e a b = absurd (omega arith)
    fragments-IsTrain (suc fuel) off rest l e a b = elim (Bool-cases (length rest == 0)) [
      | inl z ↦ rw (fragments-nil fuel off rest z) tt
      | inr z ↦
          let n = min size (length rest) in
          let more = ltb n (length rest) || mf in
          let f = fragment h fh n off more (take n rest) in
          let fs = fragments fuel h fh size mf (off + n) (drop n rest) in
          let nonzero : 0 < length rest = ground arith in
          let chunk : length (chunk_of f) ≡ n =
            ap length (chunk_of-fragment n off more (take n rest))
            ∙ (omega (arith, length-take n rest)) in
          let left = length-drop n rest in
          let flag_same = more_same fuel off rest (omega arith) z in
          rw (fragments-suc fuel off rest z) (
            rw (← flag_same) (
                fragment-IsFragment size n off more (take n rest)
                  (omega (arith, length-take n rest)) (e nonzero) (omega arith) (omega arith)
                  (omega arith) (omega arith)),
            λ k. chunk ∙ full_chunk (length rest) size (flag_same ∙ ap not k),
            rw chunk (
                fragments-IsTrain fuel (off + n) (drop n rest) (omega (arith, left))
                  (λ k. omega (arith, e nonzero, aligned, left)) (omega (arith, left))
                  (omega (arith, left))),
          )
    ]
