-- ===== src/Addrmap/Pool/Invariant.antt =====
-- The invariant of a pool: its maps, its objects and its bitmap fit together.
pub mod Steps
pub mod Moves
pub mod Removal
pub mod Hosts
pub mod Operations
pub mod Idle
pub mod Empty
pub mod Addresses
use clatto.Base.{
  ℕ, zero, suc, ◌+◌, ◌-◌, ◌*◌, ◌/◌, ◌%◌, ◌^◌, ◌≤◌, ◌<◌, ◌≡◌, ◌⊎◌, Bool, true, false, List, some,
  length,
}
use clatto.Netutil.{Addr4, Addr6}
use clatto.Netip.{v4, num4}
use clatto.Addrmap.Pool.{Pool, DynHost, addr_of, is_used, find_off, find6}
use clatto.Addrmap.Pool.Maps.{Distinct}

-- The object at an offset belongs to a host, and is dormant or not.
pub record IsHeld (by4 : List DynHost) (a : Addr6) (off : ℕ) (dormant : Bool) : Type 0 where
  pub host : DynHost
  pub found : find_off off by4 ≡ some host
  pub of_host : host.addr6 ≡ a
  pub state : host.dormant ≡ dormant

-- The mapped hosts, or the dormant ones.
abbrev pub side : Pool → Bool → List (Addr6 × ℕ)
side p b = elim b [ false ↦ p.mapped | true ↦ p.dormant ]

-- The prefix is masked, of `width` bits below its length, and the bitmap has a bit for each address.
pub record IsShape (p : Pool) (width : ℕ) : Type 0 where
  pub net : Addr4
  pub of_net : p.prefix.addr ≡ v4 net
  pub net_base : p.base ≡ num4 net
  pub below : p.prefix.bits + width ≡ 32
  pub quotient : ℕ
  pub bound : quotient * 2 ^ width + 2 ^ width ≤ 2 ^ 32
  pub mask : p.max ≡ 2 ^ width - 1
  pub masked : p.base ≡ quotient * 2 ^ width
  pub words : length p.used ≡ (p.max + 64) / 64

-- An object stands at its own offset, which is one of the prefix's host addresses, is marked in the
-- bitmap, and has its address there and its IPv6 address in the map of its state.
pub record IsPlaced (p : Pool) (off : ℕ) (d : DynHost) : Type 0 where
  pub address : d.addr4 ≡ addr_of p off
  pub nonzero : ¬ (off ≡ 0)
  pub inside : off ≤ p.max
  pub marked : is_used p.used off ≡ true
  pub listed : find6 d.addr6 (side p d.dormant) ≡ some off

-- A mark of the bitmap is that of offset 0, which no host gets, or of an object.
abbrev pub IsBacked : List DynHost → ℕ → Type 0
IsBacked by4 off = (off ≡ 0) ⊎ ((d : DynHost) × (find_off off by4 ≡ some d))

pub record IsPool (p : Pool) : Type 0 where
  pub width : ℕ
  pub shape : IsShape p width
  pub distinct : (b : Bool) → Distinct (side p b)
  pub held : (b : Bool) (a : Addr6) (off : ℕ) → find6 a (side p b) ≡ some off → IsHeld p.by4 a off b
  pub single :
      (b c : Bool) (a : Addr6) (off other : ℕ)
      → find6 a (side p b) ≡ some off
      → find6 a (side p c) ≡ some other
      → off ≡ other
  pub placed : (off : ℕ) (d : DynHost) → find_off off p.by4 ≡ some d → IsPlaced p off d
  pub first : is_used p.used 0 ≡ true
  pub backed : (off : ℕ) → is_used p.used off ≡ true → IsBacked p.by4 off
