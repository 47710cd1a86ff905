-- ===== src/Config/Filters.antt =====
-- `ParseFilter` of internal/config/config.go.
use Prim.Native.String.{String}
use clatto.Base.{ℕ, ◌==◌, ltb, if◌then◌else◌, ◌||◌, Option, none, some, Result, ok, err, ◌>>=◌}
use clatto.Netconf.{Filter}
use clatto.Config.Words.{Texts, cut, slash, dash, ◌===◌}

pub data FilterError : Type 0 where
  bad_protocol icmp_ports bad_port reversed_range : FilterError

unfoldable pub protocol : String → Option ℕ
protocol w =
    if w === "tcp"
    then some 6
    else if w === "udp"
    then some 17
    else if w === "sctp"
    then some 132
    else if w === "icmp" || w === "icmpv6" || w === "ipv6-icmp"
    then some 58
    else none

unfoldable pub port : Texts → String → Result FilterError ℕ
port t v = elim (t.parse_port v) [
  | none ↦ err bad_port
  | some n ↦ if n == 0 then err bad_port else ok n
]

-- From the ports on: a range, or one port.
unfoldable pub parse_range : Texts → ℕ → String → String → Result FilterError Filter
parse_range t proto lo hi = port t lo >>= λ start. port t hi >>= λ end.
    if ltb end start
    then err reversed_range
    else ok (record { proto = proto; start = start; end = end })

unfoldable pub parse_ports : Texts → ℕ → String → Result FilterError Filter
parse_ports t proto ports = if proto == 58 then err icmp_ports else elim (cut ports dash) [
  | some (lo, hi) ↦ parse_range t proto lo hi
  | none ↦ parse_range t proto ports ports
]

abbrev pub of_protocol : Texts → Option ℕ → Option String → Result FilterError Filter
of_protocol t none ports = err bad_protocol
of_protocol t (some proto) none = ok (record { proto = proto; start = 0; end = 0 })
of_protocol t (some proto) (some ports) = parse_ports t proto ports

unfoldable pub parse_filter : Texts → String → Result FilterError Filter
parse_filter t s = elim (cut s slash) [
  | some (proto, ports) ↦ of_protocol t (protocol (t.to_lower proto)) (some ports)
  | none ↦ of_protocol t (protocol (t.to_lower s)) none
]
