-- ===== src/CsiMigration/Settled.antt =====
-- What the steps of migrate_csi_volumes.go make of one volume, whichever of their calls fail.
use openshift_vsphere_migrat.Base.{
  ◌≡◌, refl, sym, ap, ◌∙◌, ◌⊎◌, inl, inr, Bool, true, false, ◌||◌, List, [], ◌∷◌, Message, Result,
  ok, err, Bool-cases,
}
use openshift_vsphere_migrat.Base.Int32.{add}
use openshift_vsphere_migrat.Api.{PvStatus, PvMigrationState, FailureDomain, Migration}
use openshift_vsphere_migrat.CsiMigration.Environment.{Environment}
use openshift_vsphere_migrat.CsiMigration.Ends.{
  Ends, EndsIn, retain_step-EndsIn, quiesce_step-EndsIn, delete_step-EndsIn, relocate_step-EndsIn,
  register_step-EndsIn, update_step-EndsIn, restore_step-EndsIn,
}
use openshift_vsphere_migrat.CsiMigration.Pipeline.{
  Progress, Step, is_pending, is_retain_set, is_quiesced, is_pvc_deleted, is_relocated,
  is_registered, is_pv_updated, is_done, warn, after_step, run_step, restore_step, count_migrated,
  restore_and_count, retain_step, quiesce_step, delete_step, relocate_step, register_step,
  update_step, update_on, register_on, relocate_on, delete_on, quiesce_on, process_steps,
  process_volume,
}

-- A status from which a step goes on.
abbrev pub is_moving : PvStatus → Bool
is_moving PvStatus.relocating = false
is_moving PvStatus.complete = false
is_moving PvStatus.failed = false
is_moving (PvStatus.other t) = false
is_moving _ = true

-- The volume is through, and exactly its counter has gone up by one.
abbrev pub Settled : {S : Type 0} → Progress S → PvMigrationState × Progress S → Type 0
Settled p (pv', p') =
    ((pv'.status ≡ PvStatus.complete) × (p'.migrated ≡ add p.migrated 1) × (p'.failed ≡ p.failed))
    ⊎ ((pv'.status ≡ PvStatus.failed) × (p'.migrated ≡ p.migrated) × (p'.failed ≡ add p.failed 1))

module _ {S : Type 0} (env : Environment S) where
  warn-migrated :
      (pv : PvMigrationState) (ws : List Message) (p : Progress S)
      → (warn env pv ws p).migrated ≡ p.migrated
  unfolding warn
  warn-migrated pv [] p = refl
  warn-migrated pv (w ∷ ws) p = refl

  warn-failed :
      (pv : PvMigrationState) (ws : List Message) (p : Progress S)
      → (warn env pv ws p).failed ≡ p.failed
  unfolding warn
  warn-failed pv [] p = refl
  warn-failed pv (w ∷ ws) p = refl

  after_step-Settled :
      (step : Step S) (x : PvStatus)
      (rest : PvMigrationState → Progress S → PvMigrationState × Progress S)
      → ((pv : PvMigrationState) (p : Progress S) → pv.status ≡ x → Settled p (rest pv p))
      → (p : Progress S) (r : Result (Unit {0})) (pv : PvMigrationState) (s : S)
      → Ends x (r, (pv, s))
      → Settled p (after_step env step rest p (r, (pv, s)))
  unfolding after_step
  after_step-Settled step x rest h p (ok u) pv s e = h pv _ e
  after_step-Settled step x rest h p (err e) pv s _ =
      inr (refl, warn-migrated pv step.warning _, warn-failed pv step.warning _)

  run_step-Settled :
      (step : Step S) (x : PvStatus)
      → EndsIn x step.operation
      → (later : PvStatus → Bool) → later x ≡ true
      → (rest : PvMigrationState → Progress S → PvMigrationState × Progress S)
      → ((pv : PvMigrationState) (p : Progress S) → later pv.status ≡ true → Settled p (rest pv p))
      → (pv : PvMigrationState) (p : Progress S) → (step.serves pv.status || later pv.status) ≡ true
      → Settled p (run_step env step rest pv p)
  unfolding run_step
  run_step-Settled step x ends later at_x rest h pv p serving =
      elim (Bool-cases (step.serves pv.status)) [
        | inl e ↦ rw e (
            let (r, (pv', s)) = step.operation (pv, p.world) in
            after_step-Settled step x rest (λ pv p q. h pv p (ap later q ∙ at_x)) p r pv' s
              (ends.at (pv, p.world)))
        | inr e ↦ rw e (h pv p (ap (λ b. b || later pv.status) (sym e) ∙ serving))
      ]

  after_counted :
      (step : Step S) (p : Progress S) (r : Result (Unit {0})) (pv : PvMigrationState) (s : S)
      → Ends PvStatus.complete (r, (pv, s))
      → Settled p (after_step env step (count_migrated env) p (r, (pv, s)))
  unfolding after_step count_migrated
  after_counted step p (ok u) pv s q = inl (q, refl, refl)
  after_counted step p (err e) pv s q =
      inr (refl, warn-migrated pv step.warning _, warn-failed pv step.warning _)

  restore_and_count-Settled :
      (pv : PvMigrationState) (p : Progress S)
      → is_pv_updated pv.status ≡ true
      → Settled p (restore_and_count env pv p)
  unfolding restore_and_count restore_step
  restore_and_count-Settled pv p e = rw e (
      let (r, (pv', s)) = (restore_step env).operation (pv, p.world) in
      after_counted (restore_step env) p r pv' s ((restore_step-EndsIn env).at (pv, p.world)))

  abbrev from_registered : PvStatus → Bool
  from_registered x = is_registered x || is_pv_updated x

  abbrev from_relocated : PvStatus → Bool
  from_relocated x = is_relocated x || from_registered x

  abbrev from_pvc_deleted : PvStatus → Bool
  from_pvc_deleted x = is_pvc_deleted x || from_relocated x

  abbrev from_quiesced : PvStatus → Bool
  from_quiesced x = is_quiesced x || from_pvc_deleted x

  abbrev from_retain_set : PvStatus → Bool
  from_retain_set x = is_retain_set x || from_quiesced x

  moving-from_pending :
      (x : PvStatus) → is_moving x ≡ true → (is_pending x || from_retain_set x) ≡ true
  moving-from_pending PvStatus.pending e = refl
  moving-from_pending PvStatus.retain_set e = refl
  moving-from_pending PvStatus.quiesced e = refl
  moving-from_pending PvStatus.pvc_deleted e = refl
  moving-from_pending PvStatus.relocating e = e
  moving-from_pending PvStatus.relocated e = refl
  moving-from_pending PvStatus.registered e = refl
  moving-from_pending PvStatus.pv_updated e = refl
  moving-from_pending PvStatus.complete e = e
  moving-from_pending PvStatus.failed e = e
  moving-from_pending (PvStatus.other t) e = e

  update_on-Settled :
      (pv : PvMigrationState) (p : Progress S)
      → from_registered pv.status ≡ true
      → Settled p (update_on env pv p)
  unfolding update_on
  update_on-Settled =
      run_step-Settled (update_step env) PvStatus.pv_updated (update_step-EndsIn env) is_pv_updated
        refl (restore_and_count env) restore_and_count-Settled

  register_on-Settled :
      (fd : FailureDomain) (pv : PvMigrationState) (p : Progress S)
      → from_relocated pv.status ≡ true
      → Settled p (register_on env fd pv p)
  unfolding register_on
  register_on-Settled fd =
      run_step-Settled (register_step env fd) PvStatus.registered (register_step-EndsIn env fd)
        from_registered refl (update_on env) update_on-Settled

  relocate_on-Settled :
      (fd : FailureDomain) (m : Migration) (pv : PvMigrationState) (p : Progress S)
      → from_pvc_deleted pv.status ≡ true
      → Settled p (relocate_on env fd m pv p)
  unfolding relocate_on
  relocate_on-Settled fd m =
      run_step-Settled (relocate_step env fd m) PvStatus.relocated (relocate_step-EndsIn env fd m)
        from_relocated refl (register_on env fd) (register_on-Settled fd)

  delete_on-Settled :
      (fd : FailureDomain) (m : Migration) (pv : PvMigrationState) (p : Progress S)
      → from_quiesced pv.status ≡ true
      → Settled p (delete_on env fd m pv p)
  unfolding delete_on
  delete_on-Settled fd m =
      run_step-Settled (delete_step env) PvStatus.pvc_deleted (delete_step-EndsIn env)
        from_pvc_deleted refl (relocate_on env fd m) (relocate_on-Settled fd m)

  quiesce_on-Settled :
      (fd : FailureDomain) (m : Migration) (pv : PvMigrationState) (p : Progress S)
      → from_retain_set pv.status ≡ true
      → Settled p (quiesce_on env fd m pv p)
  unfolding quiesce_on
  quiesce_on-Settled fd m =
      run_step-Settled (quiesce_step env) PvStatus.quiesced (quiesce_step-EndsIn env) from_quiesced
        refl (delete_on env fd m) (delete_on-Settled fd m)

  process_steps-Settled :
      (fd : FailureDomain) (m : Migration) (pv : PvMigrationState) (p : Progress S)
      → is_moving pv.status ≡ true
      → Settled p (process_steps env fd m pv p)
  unfolding process_steps
  process_steps-Settled fd m pv p moving =
      run_step-Settled (retain_step env) PvStatus.retain_set (retain_step-EndsIn env)
        from_retain_set refl (quiesce_on env fd m) (quiesce_on-Settled fd m) pv p
        (moving-from_pending pv.status moving)

  process_steps-still :
      (fd : FailureDomain) (m : Migration) (pv : PvMigrationState) (p : Progress S) (x : PvStatus)
      → pv.status ≡ x
      → is_moving x ≡ false
      → is_done x ≡ false
      → process_steps env fd m pv p ≡ (pv, p)
  unfolding process_steps quiesce_on delete_on relocate_on register_on update_on restore_and_count
      run_step retain_step quiesce_step delete_step relocate_step register_step update_step
      restore_step
  process_steps-still fd m pv p PvStatus.relocating e u v = rw e refl
  process_steps-still fd m pv p (PvStatus.other t) e u v = rw e refl
  process_steps-still fd m pv p PvStatus.pending e u v = cc
  process_steps-still fd m pv p PvStatus.retain_set e u v = cc
  process_steps-still fd m pv p PvStatus.quiesced e u v = cc
  process_steps-still fd m pv p PvStatus.pvc_deleted e u v = cc
  process_steps-still fd m pv p PvStatus.relocated e u v = cc
  process_steps-still fd m pv p PvStatus.registered e u v = cc
  process_steps-still fd m pv p PvStatus.pv_updated e u v = cc
  process_steps-still fd m pv p PvStatus.complete e u v = cc
  process_steps-still fd m pv p PvStatus.failed e u v = cc

  moving-not_done : (x : PvStatus) → is_moving x ≡ true → is_done x ≡ false
  moving-not_done PvStatus.complete e = sym e
  moving-not_done PvStatus.failed e = sym e
  moving-not_done PvStatus.pending e = refl
  moving-not_done PvStatus.retain_set e = refl
  moving-not_done PvStatus.quiesced e = refl
  moving-not_done PvStatus.pvc_deleted e = refl
  moving-not_done PvStatus.relocating e = refl
  moving-not_done PvStatus.relocated e = refl
  moving-not_done PvStatus.registered e = refl
  moving-not_done PvStatus.pv_updated e = refl
  moving-not_done (PvStatus.other t) e = refl

  -- One turn of the loop on a volume whose status a step serves leaves it complete, with the migrated
  -- counter one higher, or failed, with the failed counter one higher, and the other counter as it
  -- was, whichever calls fail.
  pub process_volume-Settled :
      (fd : FailureDomain) (m : Migration) (pv : PvMigrationState) (p : Progress S)
      → is_moving pv.status ≡ true
      → Settled p (process_volume env fd m pv p)
  unfolding process_volume
  process_volume-Settled fd m pv p moving =
      rw (moving-not_done pv.status moving) (process_steps-Settled fd m pv p moving)

  -- One turn of the loop on a volume whose status is complete, failed, relocating or unknown leaves
  -- the volume, the counters and the world as they were.
  pub process_volume-still :
      (fd : FailureDomain) (m : Migration) (pv : PvMigrationState) (p : Progress S)
      → is_moving pv.status ≡ false
      → process_volume env fd m pv p ≡ (pv, p)
  unfolding process_volume
  process_volume-still fd m pv p still = elim (Bool-cases (is_done pv.status)) [
    | inl e ↦ rw e refl
    | inr e ↦ rw e (process_steps-still fd m pv p pv.status refl still e)
  ]
