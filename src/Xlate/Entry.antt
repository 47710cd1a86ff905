-- ===== src/Xlate/Entry.antt =====
-- `Translate`: one inbound packet.
use clatto.Base.{◌==◌, if◌then◌else◌, Bytes, length, byte_at, ◌>>>◌}
use clatto.Netip.{zero_addr}
use clatto.Xlate.Events.{Kind, Reason}
use clatto.Xlate.Translator.{Translator, Env, Act, note, tell, done}
use clatto.Xlate.V4.Handle.{handle_ipv4}
use clatto.Xlate.V6.Handle.{handle_ipv6}

module _ {S : Type 0} (env : Env S) (t : Translator) where
  unfoldable pub translate : Bytes → Act S
  translate raw =
      if length raw == 0
      then done
      else if byte_at raw 0 >>> 4 == 4
      then handle_ipv4 env t raw
      else if byte_at raw 0 >>> 4 == 6
      then handle_ipv6 env t raw
      else tell (
          note (record {
            kind = Kind.drop;
            reason = Reason.unknown_ip_version;
            family = 0;
            proto = 0;
            len = length raw;
            src = zero_addr;
            dst = zero_addr;
          }))
