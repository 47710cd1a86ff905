-- ===== src/Config/Progress.antt =====
-- What the checks of `ResolveWith` keep: an error that is found stays found, and the MTUs, the
-- existing pool and the choice of a pool are not touched.
use clatto.Base.{
  ◌≡◌, refl, ◌∙◌, ap, if◌then◌else◌, Bool, true, false, List, [], ◌∷◌, ◌++◌, Result, ok, err,
}
use clatto.Addrmap.Entry.{Builder, AddError}
use clatto.Config.{Warning}
use clatto.Config.Draft.{Draft, ConfigError, fail, fail_if, warn, attempt, has_errors}

abbrev pub Keeps : Draft → Draft → Type 0
Keeps d d' = has_errors d ≡ true → has_errors d' ≡ true

pub record Grows (d d' : Draft) : Type 0 where
  pub same_mtu : d'.mtu ≡ d.mtu
  pub same_offlink : d'.offlink_mtu ≡ d.offlink_mtu
  pub same_existing : d'.existing ≡ d.existing
  pub same_pool : d'.pool ≡ d.pool
  pub keeps : Keeps d d'

pub Grows-refl : (d : Draft) → Grows d d
Grows-refl d = record {
  same_mtu = refl;
  same_offlink = refl;
  same_existing = refl;
  same_pool = refl;
  keeps = λ h. h;
}

pub Grows-trans : {a b c : Draft} → Grows a b → Grows b c → Grows a c
Grows-trans h k = record {
  same_mtu = k.same_mtu ∙ h.same_mtu;
  same_offlink = k.same_offlink ∙ h.same_offlink;
  same_existing = k.same_existing ∙ h.same_existing;
  same_pool = k.same_pool ∙ h.same_pool;
  keeps = λ e. k.keeps (h.keeps e);
}

pub fail-has_errors : (e : ConfigError) (d : Draft) → has_errors (fail e d) ≡ true
unfolding fail
fail-has_errors e d = any_last d.errs
  where
    any_last : (es : List ConfigError) → elim (es ++ e ∷ []) [ [] ↦ false | _ ∷ _ ↦ true ] ≡ true
    any_last [] = refl
    any_last (x ∷ es) = refl

pub fail-Grows : (e : ConfigError) (d : Draft) → Grows d (fail e d)
unfolding fail
fail-Grows e d = record {
  same_mtu = refl;
  same_offlink = refl;
  same_existing = refl;
  same_pool = refl;
  keeps = λ h. fail-has_errors e d;
}

pub if-Grows : {d x y : Draft} (b : Bool) → Grows d x → Grows d y → Grows d (if b then x else y)
if-Grows true h k = h
if-Grows false h k = k

pub fail_if-Grows : (b : Bool) (e : ConfigError) (d : Draft) → Grows d (fail_if b e d)
unfolding fail_if
fail_if-Grows b e d = if-Grows b (fail-Grows e d) (Grows-refl d)

-- A step that sets other variables only.
pub set-Grows :
    (d d' : Draft)
    → d'.errs ≡ d.errs
    → d'.mtu ≡ d.mtu
    → d'.offlink_mtu ≡ d.offlink_mtu
    → d'.existing ≡ d.existing
    → d'.pool ≡ d.pool
    → Grows d d'
set-Grows d d' e m o x p = record {
  same_mtu = m;
  same_offlink = o;
  same_existing = x;
  same_pool = p;
  keeps = λ h. ap (λ es. elim es [ [] ↦ false | _ ∷ _ ↦ true ]) e ∙ h;
}

pub warn-Grows : (w : Warning) (d : Draft) → Grows d (warn w d)
unfolding warn
warn-Grows w d = set-Grows d _ refl refl refl refl refl

pub attempt-Grows :
    (wrap : AddError → ConfigError) (r : Result AddError Builder) (d : Draft)
    → Grows d (attempt wrap r d)
unfolding attempt
attempt-Grows wrap (ok b) d = set-Grows d (record d { builder = b }) refl refl refl refl refl
attempt-Grows wrap (err e) d = fail-Grows (wrap e) d

-- The same, but for the choice of a pool.
pub record Extends (d d' : Draft) : Type 0 where
  pub same_mtu : d'.mtu ≡ d.mtu
  pub same_offlink : d'.offlink_mtu ≡ d.offlink_mtu
  pub same_existing : d'.existing ≡ d.existing
  pub keeps : Keeps d d'

pub Grows-Extends : {d d' : Draft} → Grows d d' → Extends d d'
Grows-Extends h = record {
  same_mtu = h.same_mtu;
  same_offlink = h.same_offlink;
  same_existing = h.same_existing;
  keeps = h.keeps;
}
