-- ===== src/BackupSession/Ending.antt =====
-- How a backup session ends: with all its targets done if its sidecars succeed, and never if it has no
-- target.
use formol.Prelude.{
  ℕ, suc, ◌≡◌, refl, ◌⊎◌, inl, inr, ◌∙◌, true, false, List, [], ◌∷◌, map, length, is_empty, All,
}
use formol.Api.Meta.{Time, ObjectKey}
use formol.Api.Config.{Target, BackupConfiguration}
use formol.Api.Session.{initializing, running, finalize, TargetStatus, BackupSession}
use formol.Api.Objects.{Kind}
use formol.Client.{Client}
use formol.Outcome.{ok, ◌>>=◌}
use formol.Session.{
  init_session, init_targets, check_initialized, check_waiting, check_success, check_session_state,
  check_from,
}
use formol.Session.Stage.{
  Stage, preparing, backing_up, finalizing, check_stage, is_current, next_of,
}
use formol.Session.Rounds.{rounds, finished, is_empty-map, check_stage-rounds}
use formol.Retention.{Dated}
use formol.BackupSession.{
  done, conf_key, is_deleting, has_finalizer, reconcile, reconcile_found, reconcile_live, advance,
  store_state,
}
use formol.BackupSession.Deletion.{reconcile-found}

is_empty-init :
    (clock : ℕ → Time) (i : ℕ) (targets : List Target)
    → is_empty (init_targets clock i targets) ≡ is_empty targets
unfolding init_targets
is_empty-init clock i [] = refl
is_empty-init clock i (t ∷ targets) = refl

init-current :
    (clock : ℕ → Time) (i : ℕ) (targets : List Target)
    → All (λ t. is_current preparing t ≡ true) (init_targets clock i targets)
unfolding init_targets
init-current clock i [] = tt
init-current clock i (t ∷ targets) = (refl, init-current clock (suc i) targets)

finished-current_backing_up :
    (tss : List TargetStatus)
    → All (λ t. is_current backing_up t ≡ true) (map (finished preparing) tss)
finished-current_backing_up [] = tt
finished-current_backing_up (t ∷ tss) = (refl, finished-current_backing_up tss)

finished-current_finalizing :
    (tss : List TargetStatus)
    → All (λ t. is_current finalizing t ≡ true) (map (finished backing_up) tss)
finished-current_finalizing [] = tt
finished-current_finalizing (t ∷ tss) = (refl, finished-current_finalizing tss)

-- A stage with n rounds for its n targets, and the check that ends it.
abbrev pub EndsStage : Stage → BackupConfiguration → Time → List TargetStatus → Type 0
EndsStage stage conf now tss =
    check_stage stage (rounds conf now stage (length tss) tss) conf now
    ≡ ok (record { state = next_of stage; targets = map (finished stage) tss })

module _ (clock : ℕ → Time) (conf : BackupConfiguration) (now : Time) where
  -- The checks of the three stages, on the targets of a session that starts on a configuration with at
  -- least one target. In a round the targets that a check answers are kept only if it answers a state,
  -- and then the sidecar of the busy target succeeds. Each stage takes one round for each target, and
  -- the check after them answers Running, Finalize and Success, with every target done.
  pub session_succeeds :
      is_empty conf.spec.targets ≡ false
      → let first = init_session clock conf in
        let second = map (finished preparing) first in
        let third = map (finished backing_up) second in
        EndsStage preparing conf now first
        × EndsStage backing_up conf now second
        × EndsStage finalizing conf now third
  unfolding init_session
  session_succeeds n =
      let first = init_targets clock 0 conf.spec.targets in
      let filled = is_empty-init clock 0 conf.spec.targets ∙ n in
      (
        (check_stage-rounds preparing conf now first filled
            (init-current clock 0 conf.spec.targets)).1,
        (check_stage-rounds backing_up conf now (map (finished preparing) first)
            (is_empty-map (finished preparing) first ∙ filled)
            (finished-current_backing_up first)).1,
        (check_stage-rounds finalizing conf now
            (map (finished backing_up) (map (finished preparing) first))
            (is_empty-map (finished backing_up) (map (finished preparing) first)
              ∙ (is_empty-map (finished preparing) first ∙ filled))
            (finished-current_finalizing (map (finished preparing) first))).1,
      )

module _ (C : Client) (newest_first : List Dated → List Dated) (req : ObjectKey) (w : C.World) where
  unchecked :
      (session : BackupSession) (conf : BackupConfiguration)
      → session.status.targets ≡ []
      → (session.status.session_state ≡ initializing)
        ⊎ ((session.status.session_state ≡ running) ⊎ (session.status.session_state ≡ finalize))
      → (advance C newest_first session.status.session_state conf session.status
            >>= store_state C session)
          w
        ≡ (ok done, w)
  unfolding advance check_initialized check_waiting check_success check_session_state check_from
  unchecked session conf t (inl e) = rw (e, t)
  unchecked session conf t (inr (inl e)) = rw (e, t)
  unchecked session conf t (inr (inr e)) = rw (e, t)

  -- A session that is not being deleted, has its finalizer, has no targets and is in one of the three
  -- stages is not written by a run that reads it and its configuration, so that it stays in the stage.
  pub reconcile_without_targets :
      (session : BackupSession) (conf : BackupConfiguration)
      → C.get Kind.backup_session req w ≡ ok session
      → C.get Kind.backup_configuration (conf_key session) w ≡ ok conf
      → is_deleting C session ≡ false
      → has_finalizer C session ≡ true
      → session.status.targets ≡ []
      → (session.status.session_state ≡ initializing)
        ⊎ ((session.status.session_state ≡ running) ⊎ (session.status.session_state ≡ finalize))
      → reconcile C newest_first req w ≡ (ok done, w)
  unfolding reconcile_found reconcile_live advance check_initialized check_waiting check_success
      check_session_state check_from
  reconcile_without_targets session conf found configured d f t s =
      rw
        (
          reconcile-found C newest_first req w session conf found configured,
          reconcile_found,
          d,
          reconcile_live,
          f,
        )
        (unchecked session conf t s)
