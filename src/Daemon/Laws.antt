-- ===== src/Daemon/Laws.antt =====
-- `Apply` has one of its outcomes.
use Prim.Native.String.{String}
use clatto.Base.{
  ℕ, ◌+◌, ◌≡◌, ◌⊎◌, refl, sym, ◌∙◌, ap, Bool, true, false, inl, inr, ◌&&◌, if◌then◌else◌, Option,
  some, none, List, [], ◌∷◌, Result, ok, err,
}
use clatto.Addrmap.Build.{Table}
use clatto.Addrmap.Pool.StateFile.{is_some}
use clatto.Xlate.Translator
use clatto.Config.{
  PoolObject, Config, Resolved, PoolChoice, no_pool, existing_pool, new_pool, configures,
}
use clatto.Config.Resolve.{ResolveError, Setting, immutable_changes}
use clatto.Daemon.{
  Environment, Daemon, ApplyError, invalid, immutable, update_failed, netconf_options, fail_locked,
  resolve_for, save_pool_state, pool_for, updated, update_kernel, next_engine, commit, refuse,
  finish_apply, switch, check_immutable, settle_apply, apply,
}
use clatto.Daemon.Kept.{
  Kept, Kept-set, Kept-trans, fail_locked-Kept, resolve_for-Kept, pool_for-Kept,
}
use clatto.Daemon.Outcome.{
  PoolTaken, gone, stays, made, KernelSet, configured, left_alone, Refusal, not_resolved,
  not_mutable, not_updated, Outcome, refused, accepted,
}

next_engine-cases :
    (r : Resolved) (e : Option (Translator.Config × Table))
    → (next_engine r e ≡ none) ⊎ (next_engine r e ≡ some (r.xlate, r.table))
next_engine-cases r none = inl refl
next_engine-cases r (some _) = inr refl

next_engine-is_some :
    (r : Resolved) (e : Option (Translator.Config × Table)) → is_some (next_engine r e) ≡ is_some e
next_engine-is_some r none = refl
next_engine-is_some r (some _) = refl

pool_for-PoolTaken :
    {W : Type 0} (env : Environment W) (now : ℕ) (r : Resolved) (c : PoolChoice) (d : Daemon W)
    → PoolTaken env now r d c (pool_for env now r c d).0 (pool_for env now r c d).1.world
unfolding pool_for
pool_for-PoolTaken env now r no_pool d = gone
pool_for-PoolTaken env now r existing_pool d = stays
pool_for-PoolTaken env now r (new_pool p) d = made p (save_pool_state env true d).world refl

module _ {W : Type 0} (env : Environment W) (now : ℕ) (source : String) (d m : Daemon W)
    (result : Result ResolveError Resolved) where
  refuse-Outcome :
      (e : ApplyError) (d' : Daemon W)
      → Kept d d'
      → Refusal env d m (fail_locked now source e d') result e
      → Outcome env now source d m result (refuse now source e d')
  unfolding fail_locked
  refuse-Outcome e d' h k =
      refused e (fail_locked now source e d') (Kept-trans h (fail_locked-Kept now source e d')) k
        refl refl

  commit-Outcome :
      (r : Resolved) (p : Option PoolObject) (d1 d2 : Daemon W)
      → result ≡ ok r
      → immutable_changes d.cur r ≡ []
      → Kept d d1
      → d2.engine ≡ d1.engine
      → d2.started ≡ d1.started
      → d2.status ≡ d1.status
      → PoolTaken env now r m r.pool p d1.world
      → KernelSet env r d d1.world (commit now source r p d2)
      → Outcome env now source d m result (none, commit now source r p d2)
  unfolding commit
  commit-Outcome r p d1 d2 q u h e s t taken kernel =
      accepted r (commit now source r p d2) q record {
        unchanged = u;
        cur = refl;
        in_step = record { engine = next_engine-cases r d2.engine; level = refl; kinds = refl };
        runs = next_engine-is_some r d2.engine ∙ ap is_some (e ∙ h.engine);
        started = s ∙ h.started;
        between = d1.world;
        pool = taken;
        kernel = kernel;
        generation = ap (λ x. x.generation + 1) t ∙ ap (λ n. n + 1) h.generation;
        of_source = refl;
        applied_at = refl;
        no_error = refl;
      }

  updated-Outcome :
      (r : Resolved) (p : Option PoolObject) (u : Bool × W) (d1 : Daemon W)
      → result ≡ ok r
      → immutable_changes d.cur r ≡ []
      → (d.started && configures r) ≡ true
      → Kept d d1
      → PoolTaken env now r m r.pool p d1.world
      → env.update d.applied (netconf_options r d.applied.name) d1.world ≡ u
      → Outcome env now source d m result
          (finish_apply now source r p (updated (netconf_options r d1.applied.name) u d1))
  unfolding commit fail_locked
  updated-Outcome r p (true, w) d1 q k b h taken e =
      let want = netconf_options r d1.applied.name in
      commit-Outcome r p d1 (record d1 { world = w; applied = want }) q k h refl refl refl taken
        (configured b (ap (λ a. netconf_options r a.name) h.applied) e)
  updated-Outcome r p (false, w) d1 q k b h taken e =
      refuse-Outcome update_failed (record d1 { world = w })
        (Kept-trans h (Kept-set d1 d1.pool w d1.status.last_error d1.status.last_error_at))
        (not_updated r q k b d1.world e)

  switch-Outcome :
      (r : Resolved)
      → result ≡ ok r
      → immutable_changes d.cur r ≡ []
      → Kept d m
      → Outcome env now source d m result (switch env now source r m)
  unfolding switch update_kernel commit
  switch-Outcome r q u h =
      let s = pool_for env now r r.pool m in
      let k = Kept-trans h (pool_for-Kept env now r r.pool m) in
      let taken = pool_for-PoolTaken env now r r.pool m in
      let want = netconf_options r s.1.applied.name in
      let same : (s.1.started && configures r) ≡ (d.started && configures r) =
        ap (λ b. b && configures r) k.started in
      if-Outcome (s.1.started && configures r) r s.0
        (updated want (env.update s.1.applied want s.1.world) s.1) (true, s.1)
        (λ b.
          updated-Outcome r s.0 (env.update s.1.applied want s.1.world) s.1 q u (sym same ∙ b) k
            taken (ap (λ a. env.update a (netconf_options r a.name) s.1.world) (sym k.applied)))
        (λ b.
          commit-Outcome r s.0 s.1 s.1 q u k refl refl refl taken
            (left_alone (sym same ∙ b) k.applied refl))
    where
      if-Outcome :
          (b : Bool) (r : Resolved) (p : Option PoolObject) (x y : Bool × Daemon W)
          → (b ≡ true → Outcome env now source d m result (finish_apply now source r p x))
          → (b ≡ false → Outcome env now source d m result (finish_apply now source r p y))
          → Outcome env now source d m result (finish_apply now source r p (if b then x else y))
      if-Outcome true r p x y h k = h refl
      if-Outcome false r p x y h k = k refl

  check_immutable-Outcome :
      (r : Resolved) (l : List Setting)
      → result ≡ ok r
      → immutable_changes d.cur r ≡ l
      → Kept d m
      → Outcome env now source d m result (check_immutable env now source r l m)
  unfolding fail_locked
  check_immutable-Outcome r [] q u h = switch-Outcome r q u h
  check_immutable-Outcome r (s ∷ ss) q u h =
      refuse-Outcome (immutable (s ∷ ss)) m h (not_mutable r s ss q u refl refl)

  settle_apply-Outcome :
      (x : Result ResolveError Resolved)
      → result ≡ x
      → Kept d m
      → Outcome env now source d m result (settle_apply env now source x m)
  unfolding fail_locked
  settle_apply-Outcome (err e) q h = refuse-Outcome (invalid e) m h (not_resolved e q refl refl)
  settle_apply-Outcome (ok r) q h =
      check_immutable-Outcome r (immutable_changes m.cur r) q
        (ap (λ c. immutable_changes c r) (sym h.cur)) h

-- Apply either returns an error, which becomes the last one: that of ResolveWith, the immutable settings
-- that differ, or the failure of the update. Then the configuration, the applied network options, the
-- engine, the log level, the packet kinds, the generation, its source and its time are as they were,
-- and, but for a failed update, the pool is as ResolveWith left it. Or it returns none. Then no immutable
-- setting differs, and the configuration that ResolveWith has made is the current one, with its level
-- and packet kinds in force and its translator in the engine where that runs. Its pool is in place:
-- none, the one that was there, or the new one with what its state file holds, once the old one was
-- saved. The kernel has been updated from the applied options to the new ones, which are then the
-- applied ones, where the daemon has started and is to configure it, and else left alone. The
-- generation is one higher, with the given source and time, and there is no last error.
pub apply-Outcome :
    {W : Type 0} (env : Environment W) (now : ℕ) (cfg : Config) (source : String) (d : Daemon W)
    → Outcome env now source d
        (resolve_for env cfg d).1
        (resolve_for env cfg d).0
        (apply env now cfg source d)
unfolding apply
apply-Outcome env now cfg source d =
    settle_apply-Outcome env now source d (resolve_for env cfg d).1 (resolve_for env cfg d).0
      (resolve_for env cfg d).0 refl (resolve_for-Kept env cfg d)
