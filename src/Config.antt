-- ===== src/Config.antt =====
-- internal/config: the settings, and `ResolveWith`, which checks them and derives what the daemon runs
-- on. Negative numbers, which every check refuses, do not occur; durations are in seconds.
pub mod Words
pub mod Filters
pub mod Ports
pub mod Draft
pub mod Progress
pub mod Steps
pub mod SharedAddress
pub mod Local
pub mod Pools
pub mod Routes
pub mod RouteLaws
pub mod RouteOrder
pub mod Logging
pub mod Resolve
pub mod Tests
use Prim.Native.String.{String}
use clatto.Base.{ℕ, if◌then◌else◌, Bool, true, false, not, ◌&&◌, Option, none, some, List, Result}
use clatto.Netip.{Addr, Prefix}
use clatto.Netconf.{Route, Shared}
use clatto.Xlate.Events.{Kind}
use clatto.Xlate.Translator
use clatto.Addrmap.Build.{Table}
use clatto.Addrmap.Pool.{Pool}

abbrev pub default_interface : String
default_interface = "clat0"

abbrev pub default_mtu : ℕ
default_mtu = 1500

abbrev pub default_offlink_mtu : ℕ
default_offlink_mtu = 1280

abbrev pub default_http_listen : String
default_http_listen = ":6464"

abbrev pub default_clat_table : ℕ
default_clat_table = 0xc1a7

-- `CLAT`.
pub record Clat : Type 0 where
  pub ipv6_address : String
  pub ipv4_address : Addr
  pub ports : List String
  pub table : ℕ

pub record Interface : Type 0 where
  pub name : String
  pub mtu : ℕ
  pub configure : Option Bool
  pub addresses : List Prefix
  pub routes : List Route
  pub auto_routes : Option Bool
  pub sysctl : Option Bool

-- `Map`.
pub record StaticMap : Type 0 where
  pub ipv4 : String
  pub ipv6 : String

pub record DynamicPool : Type 0 where
  pub prefix : Prefix
  pub state_file : String
  pub min_lease : ℕ
  pub max_lease : ℕ

pub record Log : Type 0 where
  pub level : String
  pub format : String
  pub packets : List String

pub record Http : Type 0 where
  pub listen : String
  pub admin : Bool

pub record Config : Type 0 where
  pub interface : Interface
  pub ipv4_address : Addr
  pub ipv6_address : Addr
  pub prefix : Prefix
  pub wkpf_strict : Option Bool
  pub maps : List StaticMap
  pub dynamic_pool : Option DynamicPool
  pub clat : Option Clat
  pub udp_checksum : String
  pub offlink_mtu : ℕ
  pub log : Log
  pub http : Http

pub data Level : Type 0 where
  debug info warn error : Level

-- The pointer to the pool of a resolved configuration: none, the existing pool, or a new one.
pub data PoolChoice : Type 0 where
  no_pool existing_pool : PoolChoice
  new_pool : Pool → PoolChoice

-- A pool, with the table that its function `reserved` looks addresses up in.
pub record PoolObject : Type 0 where
  pub pool : Pool
  pub reserved : Option Table

abbrev pub pool_of : Option PoolObject → Option Pool
pool_of none = none
pool_of (some o) = some o.pool

abbrev pub reserved_of : Option PoolObject → Option Table
reserved_of none = none
reserved_of (some o) = o.reserved

pub data Warning : Type 0 where
  shared_address : Addr → Warning
  link_local_map link_local_ipv4 link_local_pool : Warning

pub record Resolved : Type 0 where
  pub config : Config
  pub xlate : Translator.Config
  pub table : Table
  pub pool : PoolChoice
  pub addresses : List Prefix
  pub routes4 : List Route
  pub routes6 : List Route
  pub shared : Option Shared
  pub warnings : List Warning
  pub log_level : Level
  pub log_json : Bool
  pub packet_kinds : List Kind
  pub http_listen : String

abbrev pub bool_or : Option Bool → Bool → Bool
bool_or none def = def
bool_or (some b) def = b

-- The methods of `Resolved`.
abbrev pub configures : Resolved → Bool
configures r = bool_or r.config.interface.configure true

abbrev pub sets_sysctl : Resolved → Bool
sets_sysctl r = configures r && bool_or r.config.interface.sysctl true

unfoldable pub forwards4 : Resolved → Bool
forwards4 r = sets_sysctl r && elim r.shared [ none ↦ true | some _ ↦ false ]

unfoldable pub forwards6 : Resolved → Bool
forwards6 r = sets_sysctl r
