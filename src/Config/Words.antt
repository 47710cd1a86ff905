-- ===== src/Config/Words.antt =====
-- The words of a configuration. Functions of the standard library on texts are the fields of `Texts`;
-- `strings.Cut` and `strings.Contains`, at a single character, are written out.
use Prim.Native.Char.{Char, code}
use Prim.Native.String.{String}
use text.Mathlib.Text
use clatto.Base.{ℕ, ◌==◌, if◌then◌else◌, Bool, true, false, ◌||◌, Option, none, some}
use clatto.Netip.{Addr, Prefix, zero_addr, v4, v6}
use clatto.Xlate.Translator.{UdpChecksumMode}

pub record Texts : Type 0 where
  pub to_lower : String → String
  pub equal_fold : String → String → Bool
  pub byte_length : String → ℕ
  pub parse_addr : String → Option Addr
  pub parse_prefix : String → Option Prefix
  -- `strconv.ParseUint(v, 10, 16)`.
  pub parse_port : String → Option ℕ
  pub is_abs : String → Bool
  pub show_addr : Addr → String

infix 50 ◌===◌
abbrev pub ◌===◌ : String → String → Bool
s === t = Text.◌==◌ s t

-- `strings.Cut`, for a separator of one character.
abbrev pub prepend : Char → Option (String × String) → Option (String × String)
prepend c none = none
prepend c (some (before, after)) = some (String.◌∷◌ c before, after)

unfoldable pub cut : String → ℕ → Option (String × String)
cut String.[] sep = none
cut (String.◌∷◌ c s) sep =
    let rest = cut s sep in if code c == sep then some (String.[], s) else prepend c rest

abbrev pub slash : ℕ
slash = 47

abbrev pub dash : ℕ
dash = 45

unfoldable pub parse_bool : Texts → String → Option Bool
parse_bool t v =
    let w = t.to_lower v in
    if w === "1" || w === "true" || w === "yes" || w === "on"
    then some true
    else if w === "0" || w === "false" || w === "no" || w === "off"
    then some false
    else none

-- `a.BitLen()`.
abbrev pub bit_len : Addr → ℕ
bit_len zero_addr = 0
bit_len (v4 a) = 32
bit_len (v6 a) = 128

abbrev pub whole : Addr → Prefix
whole a = record { addr = a; bits = bit_len a }

unfoldable pub parse_addr_or_prefix : Texts → String → Option Prefix
parse_addr_or_prefix t s = elim (cut s slash) [
  | some _ ↦ t.parse_prefix s
  | none ↦ elim (t.parse_addr s) [ none ↦ none | some a ↦ some (whole a) ]
]

unfoldable pub parse_udp_checksum : Texts → String → Option UdpChecksumMode
parse_udp_checksum t s =
    let w = t.to_lower s in
    if w === "" || w === "drop"
    then some UdpChecksumMode.drop
    else if w === "calc" || w === "calculate"
    then some UdpChecksumMode.calc
    else if w === "fwd" || w === "forward"
    then some UdpChecksumMode.forward
    else none
