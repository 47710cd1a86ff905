-- ===== src/Daemon/Outcome.antt =====
-- What `Apply` may return, and what it then has done.
use Prim.Native.String.{String}
use clatto.Base.{
  ℕ, ◌+◌, ◌≡◌, ◌⊎◌, true, false, ◌&&◌, Option, some, none, List, [], ◌∷◌, Result, ok, err,
}
use clatto.Addrmap.Pool.{Pool}
use clatto.Addrmap.Pool.StateFile.{is_some}
use clatto.Config.{PoolObject, Resolved, PoolChoice, no_pool, existing_pool, new_pool, configures}
use clatto.Config.Resolve.{ResolveError, Setting, immutable_changes}
use clatto.Daemon.{
  Environment, Daemon, ApplyError, invalid, immutable, update_failed, netconf_options,
  save_pool_state, load_pool_state,
}
use clatto.Daemon.Kept.{Kept}

-- The engine, the level and the packet kinds are those of the current configuration.
pub record IsInStep {W : Type 0} (d : Daemon W) : Type 0 where
  pub engine : (d.engine ≡ none) ⊎ (d.engine ≡ some (d.cur.xlate, d.cur.table))
  pub level : d.level ≡ d.cur.log_level
  pub kinds : d.kinds ≡ d.cur.packet_kinds

-- The pool that a configuration brings to the daemon `d`, and the world at that moment: none; the pool
-- of `d`; or a new one, once that of `d` was saved, with what its state file holds and the reserved
-- addresses of the new table.
pub data PoolTaken {W : Type 0} (env : Environment W) (now : ℕ) (r : Resolved) (d : Daemon W)
    : PoolChoice → Option PoolObject → W → Type 0 where
  gone : PoolTaken env now r d no_pool none d.world
  stays : PoolTaken env now r d existing_pool d.pool d.world
  made :
      (p : Pool) (w : W)
      → w ≡ (save_pool_state env true d).world
      → PoolTaken env now r d
          (new_pool p)
          (some (record { pool = load_pool_state env now r w p; reserved = some r.table }))
          w

-- The kernel has been updated, from the options that were applied, to those of the configuration; or,
-- where the daemon has not started or is not to configure it, it was left alone.
pub data KernelSet {W : Type 0} (env : Environment W) (r : Resolved) (d : Daemon W) (w : W)
    (d' : Daemon W) : Type 0 where
  configured :
      (d.started && configures r) ≡ true
      → d'.applied ≡ netconf_options r d.applied.name
      → env.update d.applied (netconf_options r d.applied.name) w ≡ (true, d'.world)
      → KernelSet env r d w d'
  left_alone :
      (d.started && configures r) ≡ false
      → d'.applied ≡ d.applied
      → d'.world ≡ w
      → KernelSet env r d w d'

-- The daemon `d`, after `ResolveWith` the daemon `m`, has taken on a configuration.
pub record Accepted {W : Type 0} (env : Environment W) (now : ℕ) (source : String)
    (d m d' : Daemon W) (r : Resolved) : Type 0 where
  pub unchanged : immutable_changes d.cur r ≡ []
  pub cur : d'.cur ≡ r
  pub in_step : IsInStep d'
  pub runs : is_some d'.engine ≡ is_some d.engine
  pub started : d'.started ≡ d.started
  pub between : W
  pub pool : PoolTaken env now r m r.pool d'.pool between
  pub kernel : KernelSet env r d between d'
  pub generation : d'.status.generation ≡ d.status.generation + 1
  pub of_source : d'.status.source ≡ source
  pub applied_at : d'.status.applied_at ≡ now
  pub no_error : d'.status.last_error ≡ none

-- Why a configuration is refused, and what of the pool and the world is as `ResolveWith` left it.
pub data Refusal {W : Type 0} (env : Environment W) (d m d' : Daemon W)
    (result : Result ResolveError Resolved) : ApplyError → Type 0 where
  not_resolved :
      (x : ResolveError)
      → result ≡ err x
      → d'.pool ≡ m.pool
      → d'.world ≡ m.world
      → Refusal env d m d' result (invalid x)
  not_mutable :
      (r : Resolved) (s : Setting) (ss : List Setting)
      → result ≡ ok r
      → immutable_changes d.cur r ≡ s ∷ ss
      → d'.pool ≡ m.pool
      → d'.world ≡ m.world
      → Refusal env d m d' result (immutable (s ∷ ss))
  not_updated :
      (r : Resolved)
      → result ≡ ok r
      → immutable_changes d.cur r ≡ []
      → (d.started && configures r) ≡ true
      → (w : W) → env.update d.applied (netconf_options r d.applied.name) w ≡ (false, d'.world)
      → Refusal env d m d' result update_failed

-- What `Apply` may return for a daemon: an error with all kept, or the configuration that `ResolveWith`
-- has made.
pub data Outcome {W : Type 0} (env : Environment W) (now : ℕ) (source : String) (d m : Daemon W)
    (result : Result ResolveError Resolved) : Option ApplyError × Daemon W → Type 0 where
  refused :
      (e : ApplyError) (d' : Daemon W)
      → Kept d d'
      → Refusal env d m d' result e
      → d'.status.last_error ≡ some e
      → d'.status.last_error_at ≡ now
      → Outcome env now source d m result (some e, d')
  accepted :
      (r : Resolved) (d' : Daemon W)
      → result ≡ ok r
      → Accepted env now source d m d' r
      → Outcome env now source d m result (none, d')
