-- ===== src/Netconf.antt =====
-- internal/netconf: the kernel settings that the daemon wants, and the differences of two lists of
-- them that `Update` removes and adds.

use Prim.Native.String.{String}
use clatto.Base.{ℕ, ◌==◌, if◌then◌else◌, Bool, true, false, ◌&&◌, Option, none, some, List, [], ◌∷◌}
use clatto.Netip.{Addr, Prefix, eq_addr, eq_prefix}

pub record Route : Type 0 where
  pub prefix : Prefix
  pub metric : ℕ
  pub mtu : ℕ
  pub adv_mss : ℕ

-- `Filter`; zeros match any protocol and any port.
pub record Filter : Type 0 where
  pub proto : ℕ
  pub start : ℕ
  pub end : ℕ

pub record Shared : Type 0 where
  pub addr : Addr
  pub from : Prefix
  pub table : ℕ
  pub filters : List Filter

pub record Options : Type 0 where
  pub name : String
  pub addresses : List Prefix
  pub routes4 : List Route
  pub routes6 : List Route
  pub forward4 : Bool
  pub forward6 : Bool
  pub shared : Option Shared

pub record RuleSpec : Type 0 where
  pub addr : Addr
  pub from : Prefix
  pub table : ℕ
  pub filter : Filter

abbrev pub eq_filter : Filter → Filter → Bool
eq_filter f g = f.proto == g.proto && f.start == g.start && f.end == g.end

abbrev pub eq_rule : RuleSpec → RuleSpec → Bool
eq_rule r s =
    eq_addr r.addr s.addr
    && eq_prefix r.from s.from
    && r.table == s.table
    && eq_filter r.filter s.filter

abbrev pub eq_route : Route → Route → Bool
eq_route r s =
    eq_prefix r.prefix s.prefix && r.metric == s.metric && r.mtu == s.mtu && r.adv_mss == s.adv_mss

-- `routeKey`: what makes a route distinct to the kernel.
abbrev pub same_key : Route → Route → Bool
same_key r s = eq_prefix r.prefix s.prefix && r.metric == s.metric

abbrev pub any_filter : Filter
any_filter = record { proto = 0; start = 0; end = 0 }

unfoldable pub specs_of : Shared → List Filter → List RuleSpec
specs_of s [] = []
specs_of s (f ∷ fs) =
    record { addr = s.addr; from = s.from; table = s.table; filter = f } ∷ specs_of s fs

-- `ruleSpecs`.
unfoldable pub rule_specs : Option Shared → List RuleSpec
rule_specs none = []
rule_specs (some s) = elim s.filters [
  | [] ↦ specs_of s (any_filter ∷ [])
  | f ∷ fs ↦ specs_of s (f ∷ fs)
]

-- A set as the source builds it, a map of keys to true, is the list that it is built from.
unfoldable pub member : {A : Type 0} → (A → A → Bool) → A → List A → Bool
member eq x [] = false
member eq x (y ∷ ys) = if eq y x then true else member eq x ys

-- The elements of a list that are not in another, as a set by `eq`.
unfoldable pub missing : {A : Type 0} → (A → A → Bool) → List A → List A → List A
missing eq have [] = []
missing eq have (x ∷ xs) =
    let rest = missing eq have xs in if member eq x have then rest else x ∷ rest

abbrev pub missing_prefixes : List Prefix → List Prefix → List Prefix
missing_prefixes have want = missing eq_prefix have want

abbrev pub missing_routes : List Route → List Route → List Route
missing_routes have want = missing eq_route have want

-- `staleRoutes have want`: those whose key is absent from `want`.
abbrev pub stale_routes : List Route → List Route → List Route
stale_routes have want = missing same_key want have
