-- ===== src/Xlate/Events.antt =====
-- internal/xlate/events.go: what observers are told.
use clatto.Base.{ℕ, Bool, true, false}
use clatto.Netip.{Addr}

pub data Kind : Type 0 where
  drop reject icmp self dynamic : Kind

pub data Reason : Type 0 where
  none : Reason
  unknown_ip_version ip_header_length ip_header_invalid icmp_fragmented icmp_header_length : Reason
  ipv6_only_proto ipv4_only_proto fragment_misaligned fragment_too_long : Reason
  icmp_checksum_invalid self_unknown_proto echo_request self_unknown_icmp_type : Reason
  time_exceeded destination_unmappable source_unmappable packet_too_big : Reason
  udp_header_length udp_zero_checksum tcp_header_length embedded_too_short : Reason
  embedded_parse_failed icmp_error_of_icmp_error embedded_unmappable : Reason
  embedded_untranslatable unknown_unreachable_code param_problem_invalid_code : Reason
  param_problem_invalid_pointer param_problem_untranslatable unknown_icmp_type : Reason
  synthesised_source ext_header_length frag_header_length : Reason
  routing_header_segments_left no_mtu_in_packet_too_big : Reason
  dynamic_assigned dynamic_reactivated dynamic_reassigned dynamic_dormant : Reason
  dynamic_released dynamic_exhausted : Reason

-- `r == ReasonNone`.
abbrev pub is_none : Reason → Bool
is_none none = true
is_none _ = false

pub record Event : Type 0 where
  pub kind : Kind
  pub reason : Reason
  pub family : ℕ
  pub proto : ℕ
  pub len : ℕ
  pub src : Addr
  pub dst : Addr
