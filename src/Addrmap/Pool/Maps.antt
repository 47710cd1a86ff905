-- ===== src/Addrmap/Pool/Maps.antt =====
-- The maps of a pool, by what is found in them.
use clatto.Base.{
  ℕ, ◌≡◌, ◌==◌, ==_iff, ==_refl, ◌∙◌, refl, ap, sym, subst, arith, true, false, Bool-cases, inl,
  inr, ◌⊎◌, List, [], ◌∷◌, some, none,
}
use clatto.Netutil.{Addr6}
use clatto.Netip.{eq6}
use clatto.Addrmap.Pool.{DynHost, find_off, delete_off, update_off, find6, insert6, delete6}

eq6_eq : (a b : Addr6) → eq6 a b ≡ true → a ≡ b
eq6_eq a b h = ground arith

pub eq6_refl : (a : Addr6) → eq6 a a ≡ true
eq6_refl a = ground (arith, ==_refl a.0)

pub eq6_other : (a b : Addr6) → ¬ (a ≡ b) → eq6 a b ≡ false
eq6_other a b h = elim (Bool-cases (eq6 a b)) [ inl k ↦ absurd (h (eq6_eq a b k)) | inr k ↦ k ]

not_eq6 : (a b : Addr6) → eq6 a b ≡ false → ¬ (a ≡ b)
not_eq6 a b k e = let q : eq6 a b ≡ true = rw e (eq6_refl b) in ground (arith, k, q)

pub Addr6-cases : (a b : Addr6) → (a ≡ b) ⊎ (¬ (a ≡ b))
Addr6-cases a b = elim (Bool-cases (eq6 a b)) [
  | inl k ↦ inl (eq6_eq a b k)
  | inr k ↦ inr (not_eq6 a b k)
]

pub Nat-cases : (a b : ℕ) → (a ≡ b) ⊎ (¬ (a ≡ b))
Nat-cases a b = elim (Bool-cases (a == b)) [
  | inl k ↦ inl ((==_iff a b).0 k)
  | inr k ↦ inr (λ e. ground (arith, k, e))
]

pub find6-delete6 : (a : Addr6) (m : List (Addr6 × ℕ)) → find6 a (delete6 a m) ≡ none
unfolding find6 delete6
find6-delete6 a [] = refl
find6-delete6 a ((b, off) ∷ m) = elim (Bool-cases (eq6 b a)) [
  | inl k ↦ rw k (find6-delete6 a m)
  | inr k ↦ rw k (rw k (find6-delete6 a m))
]

pub find6-delete6_other :
    (a b : Addr6) (m : List (Addr6 × ℕ)) → ¬ (a ≡ b) → find6 b (delete6 a m) ≡ find6 b m
unfolding find6 delete6
find6-delete6_other a b [] h = refl
find6-delete6_other a b ((c, off) ∷ m) h = elim (Bool-cases (eq6 c a)) [
  | inl k ↦
      let e : eq6 c b ≡ false = rw (eq6_eq c a k) (eq6_other a b h) in
      rw (k, e) (find6-delete6_other a b m h)
  | inr k ↦ elim (Bool-cases (eq6 c b)) [
    | inl q ↦ rw k (rw q refl)
    | inr q ↦ rw k (rw q (find6-delete6_other a b m h))
  ]
]

pub find6-insert6 :
    (a : Addr6) (off : ℕ) (m : List (Addr6 × ℕ)) → find6 a (insert6 a off m) ≡ some off
unfolding find6 insert6
find6-insert6 a off m = rw (eq6_refl a) refl

pub find6-insert6_other :
    (a b : Addr6) (off : ℕ) (m : List (Addr6 × ℕ))
    → ¬ (a ≡ b)
    → find6 b (insert6 a off m) ≡ find6 b m
unfolding find6 insert6
find6-insert6_other a b off m h = rw (eq6_other a b h) (find6-delete6_other a b m h)

-- No address has two entries.
pub Distinct : List (Addr6 × ℕ) → Type 0
Distinct [] = Unit
Distinct ((a, off) ∷ m) = (find6 a m ≡ none) × Distinct m

pub Distinct-nil : Distinct []
unfolding Distinct
Distinct-nil = tt

pub delete6-Distinct : (a : Addr6) (m : List (Addr6 × ℕ)) → Distinct m → Distinct (delete6 a m)
unfolding delete6 Distinct
delete6-Distinct a [] h = tt
delete6-Distinct a ((b, off) ∷ m) h = elim (Bool-cases (eq6 b a)) [
  | inl k ↦ rw k (delete6-Distinct a m h.1)
  | inr k ↦
      rw k (find6-delete6_other a b m (λ e. not_eq6 b a k (sym e)) ∙ h.0, delete6-Distinct a m h.1)
]

pub insert6-Distinct :
    (a : Addr6) (off : ℕ) (m : List (Addr6 × ℕ)) → Distinct m → Distinct (insert6 a off m)
unfolding insert6 Distinct
insert6-Distinct a off m h = (find6-delete6 a m, delete6-Distinct a m h)

pub find_off-off :
    (off : ℕ) (l : List DynHost) (d : DynHost) → find_off off l ≡ some d → d.off ≡ off
unfolding find_off
find_off-off off [] d h = ground arith
find_off-off off (o ∷ l) d h = ground (arith, find_off-off off l d)

pub find_off-update_off :
    (l : List DynHost) (d o : DynHost) (off : ℕ)
    → d.off ≡ off
    → find_off off l ≡ some o
    → find_off off (update_off d l) ≡ some d
unfolding find_off update_off
find_off-update_off [] d o off e h = ground arith
find_off-update_off (x ∷ l) d o off e h = elim (Bool-cases (x.off == d.off)) [
  | inl k ↦ rw k (ground arith)
  | inr k ↦ rw k (ground (arith, find_off-update_off l d o off e))
]

pub find_off-update_off_other :
    (l : List DynHost) (d : DynHost) (off : ℕ)
    → ¬ (d.off ≡ off)
    → find_off off (update_off d l) ≡ find_off off l
unfolding find_off update_off
find_off-update_off_other [] d off h = refl
find_off-update_off_other (x ∷ l) d off h = elim (Bool-cases (x.off == d.off)) [
  | inl k ↦ rw k (ground (arith, find_off-update_off_other l d off h))
  | inr k ↦ rw k (ground (arith, find_off-update_off_other l d off h))
]

pub find_off-delete_off : (off : ℕ) (l : List DynHost) → find_off off (delete_off off l) ≡ none
unfolding find_off delete_off
find_off-delete_off off [] = refl
find_off-delete_off off (x ∷ l) = ground (arith, find_off-delete_off off l)

pub find_off-delete_off_other :
    (off other : ℕ) (l : List DynHost)
    → ¬ (off ≡ other)
    → find_off other (delete_off off l) ≡ find_off other l
unfolding find_off delete_off
find_off-delete_off_other off other [] h = refl
find_off-delete_off_other off other (x ∷ l) h =
    ground (arith, find_off-delete_off_other off other l h)

pub delete6_absent : (a : Addr6) (m : List (Addr6 × ℕ)) → find6 a m ≡ none → delete6 a m ≡ m
unfolding find6 delete6
delete6_absent a [] h = refl
delete6_absent a ((b, off) ∷ m) h = elim (Bool-cases (eq6 b a)) [
  | inl k ↦ absurd (ground (arith, k, h))
  | inr k ↦ rw k (ap (λ t. (b, off) ∷ t) (delete6_absent a m (rw k at h)))
]

pub find_off-here : (d : DynHost) (l : List DynHost) → find_off d.off (d ∷ l) ≡ some d
unfolding find_off
find_off-here d l = rw (==_refl d.off) refl

-- An object that takes the place of the one at its offset.
pub find_off-replaced :
    (d : DynHost) (other : ℕ) (l : List DynHost)
    → ¬ (d.off ≡ other)
    → find_off other (d ∷ delete_off d.off l) ≡ find_off other l
unfolding find_off
find_off-replaced d other l h = ground (arith, find_off-delete_off_other d.off other l h)

-- Both parts of a list of entries without repeats.
pub tail_entry :
    (a b : Addr6) (off other : ℕ) (m : List (Addr6 × ℕ))
    → Distinct ((a, off) ∷ m)
    → find6 b m ≡ some other
    → (¬ (a ≡ b)) × (find6 b ((a, off) ∷ m) ≡ some other)
unfolding Distinct find6
tail_entry a b off other m h l =
    let apart : ¬ (a ≡ b) = λ e. ground (arith, h.0, l, subst (λ k. find6 k m ≡ none) e h.0) in
    (apart, rw (eq6_other a b apart) l)

pub head_entry : (a : Addr6) (off : ℕ) (m : List (Addr6 × ℕ)) → find6 a ((a, off) ∷ m) ≡ some off
unfolding find6
head_entry a off m = rw (eq6_refl a) refl

pub tail_Distinct :
    (a : Addr6) (off : ℕ) (m : List (Addr6 × ℕ)) → Distinct ((a, off) ∷ m) → Distinct m
unfolding Distinct
tail_Distinct a off m h = h.1
