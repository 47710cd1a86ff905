-- ===== src/Daemon/Kept.antt =====
-- What the steps of `Apply` keep before it takes on the new configuration.
use Prim.Native.String.{String}
use clatto.Base.{
  ℕ, ◌≡◌, refl, ◌∙◌, Bool, true, false, not, ◌&&◌, ◌||◌, if◌then◌else◌, Option, some, none,
}
use clatto.Config.{
  PoolObject, Config, Resolved, DynamicPool, PoolChoice, no_pool, existing_pool, new_pool,
}
use clatto.Config.Words.{◌===◌}
use clatto.Daemon.{
  Environment, Daemon, ApplyError, fail_locked, resolve_for, written, save_object, pool_for,
}

-- What the daemon runs on, but for the pool and for what is outside.
pub record Kept {W : Type 0} (d d' : Daemon W) : Type 0 where
  pub cur : d'.cur ≡ d.cur
  pub applied : d'.applied ≡ d.applied
  pub engine : d'.engine ≡ d.engine
  pub level : d'.level ≡ d.level
  pub kinds : d'.kinds ≡ d.kinds
  pub generation : d'.status.generation ≡ d.status.generation
  pub source : d'.status.source ≡ d.status.source
  pub applied_at : d'.status.applied_at ≡ d.status.applied_at
  pub started : d'.started ≡ d.started

-- The pool, the world and the last error do not matter to it.
pub Kept-set :
    {W : Type 0} (d : Daemon W) (p : Option PoolObject) (w : W) (e : Option ApplyError) (at : ℕ)
    → Kept d (record d {
      pool = p;
      world = w;
      status = record d.status { last_error = e; last_error_at = at };
    })
Kept-set d p w e at = record {
  cur = refl;
  applied = refl;
  engine = refl;
  level = refl;
  kinds = refl;
  generation = refl;
  source = refl;
  applied_at = refl;
  started = refl;
}

Kept-refl : {W : Type 0} (d : Daemon W) → Kept d d
Kept-refl d = Kept-set d d.pool d.world d.status.last_error d.status.last_error_at

pub Kept-trans : {W : Type 0} {a b c : Daemon W} → Kept a b → Kept b c → Kept a c
Kept-trans h k = record {
  cur = k.cur ∙ h.cur;
  applied = k.applied ∙ h.applied;
  engine = k.engine ∙ h.engine;
  level = k.level ∙ h.level;
  kinds = k.kinds ∙ h.kinds;
  generation = k.generation ∙ h.generation;
  source = k.source ∙ h.source;
  applied_at = k.applied_at ∙ h.applied_at;
  started = k.started ∙ h.started;
}

pub fail_locked-Kept :
    {W : Type 0} (now : ℕ) (source : String) (e : ApplyError) (d : Daemon W)
    → Kept d (fail_locked now source e d)
unfolding fail_locked
fail_locked-Kept now source e d = Kept-set d d.pool d.world (some e) now

pub resolve_for-Kept :
    {W : Type 0} (env : Environment W) (cfg : Config) (d : Daemon W)
    → Kept d (resolve_for env cfg d).1
unfolding resolve_for
resolve_for-Kept env cfg d = Kept-set d _ d.world d.status.last_error d.status.last_error_at

if-Kept :
    {W : Type 0} {d x y : Daemon W} (b : Bool) → Kept d x → Kept d y → Kept d (if b then x else y)
if-Kept true h k = h
if-Kept false h k = k

written-Kept :
    {W : Type 0} (env : Environment W) (o : PoolObject) (r : Bool × W) (d : Daemon W)
    → Kept d (written env o r d)
written-Kept env o (false, w) d = Kept-set d d.pool w d.status.last_error d.status.last_error_at
written-Kept env o (true, w) d = Kept-set d _ w d.status.last_error d.status.last_error_at

save_object-Kept :
    {W : Type 0} (env : Environment W) (force : Bool) (p : Option PoolObject)
    (c : Option DynamicPool) (d : Daemon W)
    → Kept d (save_object env force p c d)
unfolding save_object
save_object-Kept env force none c d = Kept-refl d
save_object-Kept env force (some o) none d = Kept-refl d
save_object-Kept env force (some o) (some dp) d =
    if-Kept (dp.state_file === "" || not force && not o.pool.dirty) (Kept-refl d)
      (written-Kept env o _ d)

pub pool_for-Kept :
    {W : Type 0} (env : Environment W) (now : ℕ) (r : Resolved) (c : PoolChoice) (d : Daemon W)
    → Kept d (pool_for env now r c d).1
unfolding pool_for
pool_for-Kept env now r no_pool d = Kept-refl d
pool_for-Kept env now r existing_pool d = Kept-refl d
pool_for-Kept env now r (new_pool p) d = save_object-Kept env true d.pool _ d
