-- ===== src/Daemon.antt =====
-- `Apply` of internal/daemon/daemon.go, with what it calls to save and load the pool. The mutex is held
-- all along, so that it is one step. Logs and metrics are left out.
pub mod Kept
pub mod Outcome
pub mod Laws
pub mod Reserved
mod Tests
use Prim.Native.String.{String}
use clatto.Base.{
  ℕ, ◌+◌, if◌then◌else◌, Bool, true, false, not, ◌&&◌, ◌||◌, Option, none, some, List, [], ◌∷◌,
  Result, ok, err,
}
use clatto.Xlate.Events.{Kind}
use clatto.Xlate.Translator
use clatto.Netconf.{Options}
use clatto.Addrmap.Build.{Table}
use clatto.Addrmap.Table.{is_reserved}
use clatto.Addrmap.Pool.{Pool}
use clatto.Addrmap.Pool.StateFile
use clatto.Addrmap.Pool.StateFile.{write, read, save}
use clatto.Config.{
  Config, Resolved, PoolObject, Level, DynamicPool, PoolChoice, no_pool, existing_pool, new_pool,
  configures, forwards4, forwards6,
}
use clatto.Config.Words.{Texts, ◌===◌}
use clatto.Config.SharedAddress.{SourceAddrType}
use clatto.Config.Resolve.{ResolveError, Setting, resolve_with, immutable_changes}

-- What the daemon calls: the texts of the library, the source address of a destination,
-- `netconf.Update`, and the system calls of `Save` and `Load`. The Booleans say whether the update,
-- and the writing of the file, succeeded. A file that is read has its lines, and whether the scanner
-- failed after them.
pub record Environment (W : Type 0) : Type 0 where
  pub texts : Texts
  pub fields : StateFile.Texts String
  pub source_addr : SourceAddrType
  pub update : Options → Options → W → Bool × W
  pub write_file : String → List (List String) → W → Bool × W
  pub read_file : String → W → Option (List (List String) × Bool)

pub data ApplyError : Type 0 where
  invalid : ResolveError → ApplyError
  immutable : List Setting → ApplyError
  update_failed : ApplyError

pub record Status : Type 0 where
  pub generation : ℕ
  pub source : String
  pub applied_at : ℕ
  pub last_error : Option ApplyError
  pub last_error_at : ℕ

-- `pool` is what `cur.Pool` points to, `engine` the settings and the table of the translator of the
-- engine, where it runs, and `world` what the calls act on.
pub record Daemon (W : Type 0) : Type 0 where
  pub cur : Resolved
  pub pool : Option PoolObject
  pub applied : Options
  pub started : Bool
  pub engine : Option (Translator.Config × Table)
  pub level : Level
  pub kinds : List Kind
  pub status : Status
  pub world : W

unfoldable pub netconf_options : Resolved → String → Options
netconf_options r name = record {
  name = name;
  addresses = r.addresses;
  routes4 = r.routes4;
  routes6 = r.routes6;
  forward4 = forwards4 r;
  forward6 = forwards6 r;
  shared = r.shared;
}

unfoldable pub fail_locked : {W : Type 0} → ℕ → String → ApplyError → Daemon W → Daemon W
fail_locked now source e d = record d {
  status = record d.status { last_error = some e; last_error_at = now };
}

-- `ResolveWith` with the daemon's options: its result, and the daemon after it, whose pool it may have
-- changed.
unfoldable pub resolve_for :
    {W : Type 0} → Environment W → Config → Daemon W → Result ResolveError Resolved × Daemon W
resolve_for env cfg d =
    let r = resolve_with env.texts env.source_addr cfg d.pool in (r.0, record d { pool = r.1 })

abbrev pub written : {W : Type 0} → Environment W → PoolObject → Bool × W → Daemon W → Daemon W
written env o (false, w) d = record d { world = w }
written env o (true, w) d = record d {
  world = w;
  pool = some (record o { pool = (save env.fields o.pool).1 });
}

-- `savePoolState` of the current configuration, of a pool to the file of its settings.
unfoldable pub save_object :
    {W : Type 0}
    → Environment W
    → Bool
    → Option PoolObject
    → Option DynamicPool
    → Daemon W
    → Daemon W
save_object env force (some o) (some dp) d =
    if dp.state_file === "" || not force && not o.pool.dirty
    then d
    else written env o (env.write_file dp.state_file (write env.fields o.pool) d.world) d
save_object env force _ _ d = d

abbrev pub save_pool_state : {W : Type 0} → Environment W → Bool → Daemon W → Daemon W
save_pool_state env force d = save_object env force d.pool d.cur.config.dynamic_pool d

-- `loadPoolState`, for a pool that a configuration has made.
unfoldable pub load_pool_state : {W : Type 0} → Environment W → ℕ → Resolved → W → Pool → Pool
load_pool_state env now r w p = elim r.config.dynamic_pool [
  | none ↦ p
  | some dp ↦ if dp.state_file === "" then p else elim (env.read_file dp.state_file w) [
    | none ↦ p
    | some (lines, failed) ↦ (read env.fields (is_reserved r.table) now p lines failed).1
  ]
]

-- The pool of a new configuration, and the daemon after the current pool was saved.
unfoldable pub pool_for :
    {W : Type 0}
    → Environment W
    → ℕ
    → Resolved
    → PoolChoice
    → Daemon W
    → Option PoolObject × Daemon W
pool_for env now r no_pool d = (none, d)
pool_for env now r existing_pool d = (d.pool, d)
pool_for env now r (new_pool p) d =
    let d' = save_pool_state env true d in
    (some (record { pool = load_pool_state env now r d'.world p; reserved = some r.table }), d')

abbrev pub switch_pool :
    {W : Type 0} → Environment W → ℕ → Resolved → Daemon W → Option PoolObject × Daemon W
switch_pool env now r d = pool_for env now r r.pool d

-- `netconf.Update`, where the kernel is configured at all.
abbrev pub updated : {W : Type 0} → Options → Bool × W → Daemon W → Bool × Daemon W
updated want (true, w) d = (true, record d { world = w; applied = want })
updated want (false, w) d = (false, record d { world = w })

unfoldable pub update_kernel : {W : Type 0} → Environment W → Resolved → Daemon W → Bool × Daemon W
update_kernel env r d =
    let want = netconf_options r d.applied.name in
    if d.started && configures r
    then updated want (env.update d.applied want d.world) d
    else (true, d)

abbrev pub next_engine :
    Resolved → Option (Translator.Config × Table) → Option (Translator.Config × Table)
next_engine r none = none
next_engine r (some _) = some (r.xlate, r.table)

-- The end of `Apply`.
unfoldable pub commit :
    {W : Type 0} → ℕ → String → Resolved → Option PoolObject → Daemon W → Daemon W
commit now source r pool d = record d {
  cur = r;
  pool = pool;
  engine = next_engine r d.engine;
  level = r.log_level;
  kinds = r.packet_kinds;
  status = record d.status {
    generation = d.status.generation + 1;
    source = source;
    applied_at = now;
    last_error = none;
  };
}

abbrev pub refuse : {W : Type 0} → ℕ → String → ApplyError → Daemon W → Option ApplyError × Daemon W
refuse now source e d = (some e, fail_locked now source e d)

abbrev pub finish_apply :
    {W : Type 0}
    → ℕ
    → String
    → Resolved
    → Option PoolObject
    → Bool × Daemon W
    → Option ApplyError × Daemon W
finish_apply now source r pool (true, d) = (none, commit now source r pool d)
finish_apply now source r pool (false, d) = refuse now source update_failed d

-- From the resolved configuration on.
unfoldable pub switch :
    {W : Type 0} → Environment W → ℕ → String → Resolved → Daemon W → Option ApplyError × Daemon W
switch env now source r d =
    let (pool, d') = switch_pool env now r d in
    finish_apply now source r pool (update_kernel env r d')

abbrev pub check_immutable :
    {W : Type 0}
    → Environment W
    → ℕ
    → String
    → Resolved
    → List Setting
    → Daemon W
    → Option ApplyError × Daemon W
check_immutable env now source r [] d = switch env now source r d
check_immutable env now source r (s ∷ ss) d = refuse now source (immutable (s ∷ ss)) d

abbrev pub settle_apply :
    {W : Type 0}
    → Environment W
    → ℕ
    → String
    → Result ResolveError Resolved
    → Daemon W
    → Option ApplyError × Daemon W
settle_apply env now source (err e) d = refuse now source (invalid e) d
settle_apply env now source (ok r) d =
    check_immutable env now source r (immutable_changes d.cur r) d

unfoldable pub apply :
    {W : Type 0} → Environment W → ℕ → Config → String → Daemon W → Option ApplyError × Daemon W
apply env now cfg source d =
    let (result, d') = resolve_for env cfg d in settle_apply env now source result d'
