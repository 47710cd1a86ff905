-- ===== src/Xlate/Translator.antt =====
-- internal/xlate/translator.go: the parameters of a translator, and what it acts on. The `Mapper`,
-- the `Emitter` and math/rand are interfaces, here the fields of `Env`; the `Observer` is told in
-- the trace.
use clatto.Base.{
  ℕ, suc, Bool, true, false, List, ◌∷◌, Bytes, length, Result, ok, err, ltb, if◌then◌else◌, u16,
}
use clatto.Netutil.{Addr4, Addr6}
use clatto.Netip.{Addr, zero_addr, v4, v6, addr4_at, addr6_at}
use clatto.Xlate.Events.{Event, Kind, Reason}
use clatto.Xlate.Packet.{Pkt, event, mtu_min}

pub data UdpChecksumMode : Type 0 where
  drop calc forward : UdpChecksumMode

pub record Config : Type 0 where
  pub local_addr4 : Addr4
  pub local_addr6 : Addr6
  pub mtu : ℕ
  pub offlink_mtu : ℕ
  pub udp_checksum : UdpChecksumMode

pub record Translator : Type 0 where
  pub cfg : Config
  pub local4 : Addr4
  pub local6 : Addr6

-- `New`.
unfoldable pub new_translator : Config → Translator
new_translator c = record {
  cfg = record c { offlink_mtu = if ltb c.offlink_mtu mtu_min then mtu_min else c.offlink_mtu };
  local4 = c.local_addr4;
  local6 = c.local_addr6;
}

-- `ErrReject`, and `ErrDrop` for any other error of a mapper.
pub data MapError : Type 0 where
  rejected dropped : MapError

-- What leaves the translator: packets, events, and the counts of translated packets.
pub data Output : Type 0 where
  packet : Bytes → Output
  note : Event → Output
  translated : ℕ → ℕ → Output

-- `S` is the state of the mapper. `accepts` says whether the emitter has a buffer of `n` bytes, and
-- may depend on all that went before; `rand32` is the sequence of random numbers.
pub record Env (S : Type 0) : Type 0 where
  pub map_ipv4_to_ipv6 : S → Addr → Result MapError Addr × S
  pub map_ipv6_to_ipv4 : S → Addr → Bool → Result MapError Addr × S
  pub accepts : List Output → ℕ → Bool
  pub rand32 : ℕ → ℕ

-- The trace is the newest output first.
pub record World (S : Type 0) : Type 0 where
  pub mapper : S
  pub draws : ℕ
  pub trace : List Output

abbrev pub M : Type 0 → Type 0 → Type 0
M S A = World S → A × World S

abbrev pub Act : Type 0 → Type 0
Act S = M S (Unit {0})

infixl 5 ◌>>=◌ ◌>>◌
abbrev pub ◌>>=◌ : {S A B : Type 0} → M S A → (A → M S B) → M S B
◌>>=◌ m f w = f (m w).0 (m w).1

abbrev pub ◌>>◌ : {S B : Type 0} → Act S → M S B → M S B
◌>>◌ m k w = k (m w).1

abbrev pub done : {S : Type 0} → Act S
done w = (tt, w)

abbrev pub return : {S A : Type 0} → A → M S A
return a w = (a, w)

abbrev pub tell : {S : Type 0} → Output → Act S
tell o w = (tt, record w { trace = o ∷ w.trace })

-- `t.obs.Event(p.event(kind, reason))`.
abbrev pub observe : {S : Type 0} → Pkt → Kind → Reason → Act S
observe p kind reason = tell (note (event p kind reason))

abbrev pub translated_as : {S : Type 0} → ℕ → ℕ → Act S
translated_as fam n = tell (translated fam n)

-- `[16]byte` of an address that must be IPv6, and `[4]byte` of one that must be IPv4.
unfoldable pub want6 : Result MapError Addr → Result MapError Addr6
want6 (ok (v6 a)) = ok a
want6 (ok (v4 a)) = err dropped
want6 (ok zero_addr) = err dropped
want6 (err e) = err e

unfoldable pub want4 : Result MapError Addr → Result MapError Addr4
want4 (ok (v4 a)) = ok a
want4 (ok (v6 a)) = err dropped
want4 (ok zero_addr) = err dropped
want4 (err e) = err e

module _ {S : Type 0} (env : Env S) where
  -- Whether `out.Packet(n)` returns a buffer.
  abbrev pub reserve : ℕ → M S Bool
  reserve n w = (env.accepts w.trace n, w)

  -- Writes a packet of `length b` bytes, unless `out.Packet` returns nil.
  abbrev pub send : Bytes → M S Bool
  send b w =
      if env.accepts w.trace (length b)
      then (true, record w { trace = packet b ∷ w.trace })
      else (false, w)

  unfoldable pub map4to6 : Bytes → M S (Result MapError Addr6)
  map4to6 a w =
      let r = env.map_ipv4_to_ipv6 w.mapper (v4 (addr4_at a 0)) in
      (want6 r.0, record w { mapper = r.1 })

  unfoldable pub map6to4 : Bytes → Bool → M S (Result MapError Addr4)
  map6to4 a allocate w =
      let r = env.map_ipv6_to_ipv4 w.mapper (v6 (addr6_at a 0)) allocate in
      (want4 r.0, record w { mapper = r.1 })

  -- `randomIdent`.
  abbrev pub random_ident : M S ℕ
  random_ident w = (u16 (env.rand32 w.draws), record w { draws = suc w.draws })
