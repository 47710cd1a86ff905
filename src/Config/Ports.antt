-- ===== src/Config/Ports.antt =====
-- What `ParseFilter` accepts.
use Prim.Native.String.{String}
use clatto.Base.{
  ℕ, ◌≡◌, ◌==◌, ◌≤◌, ◌<◌, ◌⊎◌, arith, if◌then◌else◌, Bool, Bool-cases, true, false, ◌||◌, inl, inr,
  Option, Option-cases, some, none, Result-cases, ok,
}
use clatto.Netconf.{Filter}
use clatto.Config.Words.{Texts, cut, slash, dash, ◌===◌}
use clatto.Config.Filters.{protocol, port, parse_range, parse_ports, of_protocol, parse_filter}

-- `strconv.ParseUint` with 16 bits, and `strings.ToLower`.
abbrev pub FitsPort : Texts → Type 0
FitsPort t = (v : String) (n : ℕ) → t.parse_port v ≡ some n → n < 65536

-- A filter for every port, or for a range of ports of a protocol that has them.
pub record IsRange (f : Filter) : Type 0 where
  pub low : 1 ≤ f.start
  pub order : f.start ≤ f.end
  pub high : f.end < 65536
  pub has_ports : (f.proto ≡ 6) ⊎ ((f.proto ≡ 17) ⊎ (f.proto ≡ 132))

abbrev pub IsFilter : Filter → Type 0
IsFilter f =
    ((f.start ≡ 0)
      × ((f.end ≡ 0) × ((f.proto ≡ 58) ⊎ ((f.proto ≡ 6) ⊎ ((f.proto ≡ 17) ⊎ (f.proto ≡ 132))))))
    ⊎ IsRange f

abbrev IsProtocol : ℕ → Type 0
IsProtocol n = (n ≡ 58) ⊎ ((n ≡ 6) ⊎ ((n ≡ 17) ⊎ (n ≡ 132)))

by_test :
    (b : Bool) (n m : ℕ) (o : Option ℕ)
    → (if b then some m else o) ≡ some n
    → (n ≡ m) ⊎ (o ≡ some n)
by_test true n m o h = inl (ground arith)
by_test false n m o h = inr h

protocol-IsProtocol : (w : String) (n : ℕ) → protocol w ≡ some n → IsProtocol n
unfolding protocol
protocol-IsProtocol w n h =
    let icmp : Option ℕ =
      if w === "icmp" || w === "icmpv6" || w === "ipv6-icmp" then some 58 else none in
    let sctp : Option ℕ = if w === "sctp" then some 132 else icmp in
    let udp : Option ℕ = if w === "udp" then some 17 else sctp in
    elim (by_test (w === "tcp") n 6 udp h) [
      | inl e ↦ inr (inl e)
      | inr h ↦ elim (by_test (w === "udp") n 17 sctp h) [
        | inl e ↦ inr (inr (inl e))
        | inr h ↦ elim (by_test (w === "sctp") n 132 icmp h) [
          | inl e ↦ inr (inr (inr e))
          | inr h ↦
              elim (by_test (w === "icmp" || w === "icmpv6" || w === "ipv6-icmp") n 58 none h) [
                | inl e ↦ inl e
                | inr h ↦ absurd (ground arith)
              ]
        ]
      ]
    ]

port-bounds :
    (t : Texts) (v : String) (n : ℕ) → FitsPort t → port t v ≡ ok n → (1 ≤ n) × (n < 65536)
unfolding port
port-bounds t v n fits h = elim (Option-cases (t.parse_port v)) [
  | inl k ↦ absurd (ground (arith, k, h))
  | inr (m, k) ↦ let small = fits v m k in ground (arith, k, h, small)
]

parse_range-IsRange :
    (t : Texts) (proto : ℕ) (lo hi : String) (f : Filter)
    → FitsPort t
    → ((proto ≡ 6) ⊎ ((proto ≡ 17) ⊎ (proto ≡ 132)))
    → parse_range t proto lo hi ≡ ok f
    → IsRange f
unfolding parse_range
parse_range-IsRange t proto lo hi f fits p h = elim (Result-cases (port t lo)) [
  | inr (e, k) ↦ absurd (ground (arith, k, h))
  | inl (a, k) ↦ elim (Result-cases (port t hi)) [
    | inr (e, l) ↦ absurd (ground (arith, k, l, h))
    | inl (b, l) ↦
        let low = port-bounds t lo a fits k in
        let high = port-bounds t hi b fits l in ground (arith, k, l, h, low, high, p)
  ]
]

with_ports : (n : ℕ) → IsProtocol n → (n == 58) ≡ false → (n ≡ 6) ⊎ ((n ≡ 17) ⊎ (n ≡ 132))
with_ports n (inl e) h = absurd (ground arith)
with_ports n (inr k) h = k

parse_ports-IsRange :
    (t : Texts) (proto : ℕ) (ports : String) (f : Filter)
    → FitsPort t
    → IsProtocol proto
    → parse_ports t proto ports ≡ ok f
    → IsRange f
unfolding parse_ports
parse_ports-IsRange t proto ports f fits p h = elim (Bool-cases (proto == 58)) [
  | inl k ↦ absurd (ground (arith, k, h))
  | inr k ↦ elim (Option-cases (cut ports dash)) [
    | inl c ↦
        parse_range-IsRange t proto ports ports f fits (with_ports proto p k) (rw c at (rw k at h))
    | inr (r, c) ↦
        parse_range-IsRange t proto r.0 r.1 f fits (with_ports proto p k) (rw c at (rw k at h))
  ]
]

of_protocol-IsFilter :
    (t : Texts) (w : String) (ports : Option String) (f : Filter)
    → FitsPort t
    → of_protocol t (protocol w) ports ≡ ok f
    → IsFilter f
of_protocol-IsFilter t w ports f fits h = elim (Option-cases (protocol w)) [
  | inl k ↦ absurd (ground (arith, k, h))
  | inr (n, k) ↦ elim (Option-cases ports) [
    | inl p ↦ let kind = protocol-IsProtocol w n k in inl (ground (arith, k, p, h, kind))
    | inr (ps, p) ↦
        inr (parse_ports-IsRange t n ps f fits (protocol-IsProtocol w n k) (rw p at (rw k at h)))
  ]
]

-- A filter that ParseFilter accepts is for one of the four protocols with no ports, or for TCP, UDP or
-- SCTP with a range of ports from 1 to 65535 that is not reversed, if ParseUint gives numbers of 16
-- bits.
pub parse_filter-IsFilter :
    (t : Texts) (s : String) (f : Filter) → FitsPort t → parse_filter t s ≡ ok f → IsFilter f
unfolding parse_filter
parse_filter-IsFilter t s f fits h = elim (Option-cases (cut s slash)) [
  | inl k ↦ of_protocol-IsFilter t (t.to_lower s) none f fits (rw (parse_filter, k) at h)
  | inr (r, k) ↦
      of_protocol-IsFilter t (t.to_lower r.0) (some r.1) f fits (rw (parse_filter, k) at h)
]
