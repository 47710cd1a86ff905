-- ===== src/Addrmap/Pool/Invariant/Idle.antt =====
-- `Maintain` keeps the invariant of a pool.
use clatto.Base.{
  ℕ, ◌≡◌, ◌+◌, refl, ap, ◌∙◌, subst, ltb, arith, Bool, true, false, Bool-cases, inl, inr, ◌⊎◌, some,
  List, [], ◌∷◌,
}
use clatto.Netutil.{Addr6}
use clatto.Xlate.Events.{Reason}
use clatto.Addrmap.Pool.{
  Pool, DynHost, find_off, update_off, find6, insert6, delete6, clear_used, tell_pool,
}
use clatto.Addrmap.Pool.Maintain.{retire_host, retire, release_host, release, maintain}
use clatto.Addrmap.Pool.Bitmap.{is_used-clear_used, is_used-clear_used_same, length-clear_used}
use clatto.Addrmap.Pool.Maps.{
  Distinct, tail_entry, head_entry, tail_Distinct, find6-delete6_other, find_off-off,
}
use clatto.Addrmap.Pool.Invariant.{IsPool, side}
use clatto.Addrmap.Pool.Invariant.Removal.{without, without-IsPool}
use clatto.Addrmap.Pool.Invariant.Hosts.{retire-IsPool, word_bound}
use clatto.Addrmap.Pool.Invariant.Operations.{relabel-IsPool, at_own}

-- A part of a map: without repeats, and with entries of the map only.
record IsPart (m whole : List (Addr6 × ℕ)) : Type 0 where
  distinct : Distinct m
  within : (a : Addr6) (off : ℕ) → find6 a m ≡ some off → find6 a whole ≡ some off

-- What is left of the part once the map has lost the entry that the loop comes to.
rest-IsPart :
    (a : Addr6) (off : ℕ) (m whole whole' : List (Addr6 × ℕ))
    → IsPart ((a, off) ∷ m) whole
    → ((whole' ≡ whole) ⊎ (whole' ≡ delete6 a whole))
    → IsPart m whole'
rest-IsPart a off m whole whole' h e = record {
  distinct = tail_Distinct a off m h.distinct;
  within = λ b o l.
      let (apart, l') = tail_entry a b off o m h.distinct l in
      let old = h.within b o l' in
      elim e [
        | inl q ↦ ap (find6 b) q ∙ old
        | inr q ↦ ap (find6 b) q ∙ find6-delete6_other a b whole apart ∙ old
      ];
}

retire_host-cases :
    (now : ℕ) (p : Pool) (d : DynHost)
    → find_off d.off p.by4 ≡ some d
    → (retire_host now p d.addr6 d.off ≡ p)
      ⊎ (retire_host now p d.addr6 d.off
          ≡ tell_pool
              (record p {
                mapped = delete6 d.addr6 p.mapped;
                by4 = update_off (record d { dormant = true }) p.by4;
                dormant = insert6 d.addr6 d.off p.dormant;
              })
              Reason.dynamic_dormant
              d)
unfolding retire_host
retire_host-cases now p d f = elim (Bool-cases (ltb (d.last_use + p.min_lease) now)) [
  | inl k ↦ inr (ground (arith, f, k))
  | inr k ↦ inl (ground (arith, f, k))
]

release_host-cases :
    (now : ℕ) (p : Pool) (d : DynHost)
    → find_off d.off p.by4 ≡ some d
    → (release_host now p d.addr6 d.off ≡ p)
      ⊎ (release_host now p d.addr6 d.off
          ≡ tell_pool
              (record (without p d (clear_used p.used d.off)) { dirty = true })
              Reason.dynamic_released
              d)
unfolding release_host
release_host-cases now p d f = elim (Bool-cases (ltb (d.last_use + p.max_lease) now)) [
  | inl k ↦ inr (ground (arith, f, k))
  | inr k ↦ inl (ground (arith, f, k))
]

-- One turn of a loop: the invariant holds, and what is left of the list is part of the map.
abbrev Turned : Pool → Bool → List (Addr6 × ℕ) → Type 0
Turned q b m = IsPool q × IsPart m (side q b)

retire_turn :
    (now : ℕ) (p : Pool) (d : DynHost) (m : List (Addr6 × ℕ))
    → IsPool p
    → find_off d.off p.by4 ≡ some d
    → IsPart ((d.addr6, d.off) ∷ m) p.mapped
    → Turned (retire_host now p d.addr6 d.off) false m
retire_turn now p d m h f part = elim (retire_host-cases now p d f) [
  | inl e ↦ rw e (h, rest-IsPart d.addr6 d.off m p.mapped p.mapped part (inl refl))
  | inr e ↦ rw e (
    retire-IsPool p d _ h f refl,
    rest-IsPart d.addr6 d.off m p.mapped (delete6 d.addr6 p.mapped) part (inr refl),
  )
]

release_turn :
    (now : ℕ) (p : Pool) (d : DynHost) (m : List (Addr6 × ℕ))
    → IsPool p
    → find_off d.off p.by4 ≡ some d
    → d.dormant ≡ true
    → IsPart ((d.addr6, d.off) ∷ m) p.dormant
    → Turned (release_host now p d.addr6 d.off) true m
release_turn now p d m h f s part = elim (release_host-cases now p d f) [
  | inl e ↦ rw e (h, rest-IsPart d.addr6 d.off m p.dormant p.dormant part (inl refl))
  | inr e ↦
      let inside = (h.placed d.off d f).inside in
      let bound = word_bound p h.width d.off h.shape inside in
      let q = without p d (clear_used p.used d.off) in
      rw e (
        relabel-IsPool q q.min_lease q.max_lease true
            (tell_pool (record q { dirty = true }) Reason.dynamic_released d).log
            (without-IsPool p d (clear_used p.used d.off) h f s (length-clear_used p.used d.off)
              (λ off n. is_used-clear_used p.used d.off off bound n)
              (is_used-clear_used_same p.used d.off bound)),
        rest-IsPart d.addr6 d.off m p.dormant (delete6 d.addr6 p.dormant) part (inr refl),
      )
]

-- A turn at an entry of the map, whose object the invariant gives.
at_entry :
    (step : Pool → Addr6 → ℕ → Pool) (p : Pool) (b : Bool) (a : Addr6) (off : ℕ)
    (m : List (Addr6 × ℕ))
    → ((d : DynHost)
        → find_off d.off p.by4 ≡ some d
        → d.dormant ≡ b
        → IsPart ((d.addr6, d.off) ∷ m) (side p b)
        → Turned (step p d.addr6 d.off) b m)
    → IsPool p
    → IsPart ((a, off) ∷ m) (side p b)
    → Turned (step p a off) b m
at_entry step p b a off m turn h part =
    let held = h.held b a off (part.within a off (head_entry a off m)) in
    let d = held.host in
    let own = find_off-off off p.by4 d held.found in
    let go : (a' : Addr6) (off' : ℕ)
        → d.addr6 ≡ a'
        → d.off ≡ off'
        → IsPart ((a', off') ∷ m) (side p b)
        → Turned (step p a' off') b m =
      λ a' off' e e'.
        subst (λ x. IsPart ((x, off') ∷ m) (side p b) → Turned (step p x off') b m) e
          (subst (λ i. IsPart ((d.addr6, i) ∷ m) (side p b) → Turned (step p d.addr6 i) b m) e'
            (turn d (at_own p off d held.found) held.state)) in
    go a off held.of_host own part

retire-IsPool_loop :
    (now : ℕ) (m : List (Addr6 × ℕ)) (p : Pool)
    → IsPool p
    → IsPart m p.mapped
    → IsPool (retire now p m)
unfolding retire
retire-IsPool_loop now [] p h part = h
retire-IsPool_loop now ((a, off) ∷ m) p h part =
    let (h', part') =
      at_entry (retire_host now) p false a off m (λ d f s. retire_turn now p d m h f) h part in
    retire-IsPool_loop now m (retire_host now p a off) h' part'

release-IsPool_loop :
    (now : ℕ) (m : List (Addr6 × ℕ)) (p : Pool)
    → IsPool p
    → IsPart m p.dormant
    → IsPool (release now p m)
unfolding release
release-IsPool_loop now [] p h part = h
release-IsPool_loop now ((a, off) ∷ m) p h part =
    let (h', part') =
      at_entry (release_host now) p true a off m (λ d f s. release_turn now p d m h f s) h part in
    release-IsPool_loop now m (release_host now p a off) h' part'

-- The pool that `Maintain` leaves keeps the invariant, at any time.
pub maintain-IsPool : (now : ℕ) (p : Pool) → IsPool p → IsPool (maintain now p)
unfolding maintain
maintain-IsPool now p h =
    let q = retire now p p.mapped in
    let h' : IsPool q =
      retire-IsPool_loop now p.mapped p h
        record { distinct = h.distinct false; within = λ a off l. l } in
    release-IsPool_loop now q.dormant q h'
      record { distinct = h'.distinct true; within = λ a off l. l }
