-- ===== src/Configuration/Repeat.antt =====
-- The steps of a run that finds what it would write.
use formol.Prelude.{
  or_true, or_false, ◌≡◌, refl, ap, ◌∙◌, String, true, false, not, List, [], ◌∷◌, is_empty, All,
  arith,
}
use text.Mathlib.TextPositions.{eq_refl}
use formol.Api.Meta.{ObjectKey}
use formol.Api.Config.{Target, BackupConfiguration}
use formol.Api.Objects.{Kind, Repo, CronJob}
use formol.Client.{Client}
use formol.Client.Store.{IsCluster}
use formol.Outcome.{Result, ok, err, panic, Action, resume, ◌>>◌, ◌>>=◌}
use formol.Sidecar.Mounts.{PathOps}
use formol.CronJobs.{bs_creator_sa, add_cron_job}
use formol.Rbac.{key_in, create_bs_creator_rbac}
use formol.Rbac.Defs.{bs_creator_role_name, bs_creator_rolebinding_name}
use formol.Rbac.Created.{Exists}
use formol.Configuration.{
  add_sidecar, add_sidecars, repo_key, target_key, is_deleted, is_finalized, set_up_conf,
  reconcile_conf,
}
use formol.Configuration.RoundTrip.{got}
use formol.Configuration.Attached.{TargetHasSidecar, kept-TargetHasSidecar}
use formol.Configuration.Sidecars.{WithImage, Leaves-KeepsAll}
use formol.Configuration.Laws.{with_sidecars, started, finish, set_up_conf_lem}

-- Two ways to go on agree if they do after a success.
resumed_alike :
    {W B : Type 0} (r : Result (Unit {0})) (k k' : Action W B) (w : W)
    → (r ≡ ok tt → k w ≡ k' w)
    → resume (λ _. k) r w ≡ resume (λ _. k') r w
resumed_alike (ok tt) k k' w h = h refl
resumed_alike (err e) k k' w h = refl
resumed_alike panic k k' w h = refl

module _ (C : Client) (L : IsCluster C) (P : PathOps) where
  -- Where every target has the sidecar with the image of the configuration, the loop writes nothing.
  add_sidecars_again :
      (namespace image : String) (conf : BackupConfiguration) (repo : Repo) (targets : List Target)
      (w : C.World)
      → conf.spec.image ≡ image
      → C.get Kind.repo (repo_key conf) w ≡ ok repo
      → All (TargetHasSidecar C L P namespace image conf w) targets
      → add_sidecars C P namespace conf targets w
        ≡ (ok (with_sidecars C P (not (is_empty targets)) conf), w)
  unfolding add_sidecars add_sidecar
  add_sidecars_again namespace image conf repo [] w e r h =
      rw (or_false conf.status.active_sidecar) refl
  add_sidecars_again namespace image conf repo (target ∷ rest) w e r
        ((k, known, (o, found, i)), h) =
      let more : BackupConfiguration = record conf {
        status = record conf.status { active_sidecar = true };
      } in
      let later = add_sidecars_again namespace image more repo rest w e r h in
      rw (r, known, got C k (target_key conf target) w, found, i, ← e, eq_refl conf.spec.image)
        (later ∙ rw (or_true conf.status.active_sidecar) refl)

  -- What the rest of the run finds after the update of the cron job: the accounts and the roles of the
  -- cron job, the repository, and the sidecars.
  abbrev pub Found : String → BackupConfiguration → Repo → C.World → Type 0
  Found namespace conf repo w =
      Exists C Kind.service_account (key_in namespace bs_creator_sa) w
      × Exists C Kind.role (key_in namespace bs_creator_role_name) w
      × Exists C Kind.role_binding (key_in namespace bs_creator_rolebinding_name) w
      × (C.get Kind.repo (repo_key conf) w ≡ ok repo)
      × All (TargetHasSidecar C L P namespace conf.spec.image conf w) conf.spec.targets

  create_bs_creator_rbac_again :
      (namespace : String) (w : C.World)
      → Exists C Kind.service_account (key_in namespace bs_creator_sa) w
      → Exists C Kind.role (key_in namespace bs_creator_role_name) w
      → Exists C Kind.role_binding (key_in namespace bs_creator_rolebinding_name) w
      → create_bs_creator_rbac C namespace w ≡ (ok tt, w)
  unfolding create_bs_creator_rbac
  create_bs_creator_rbac_again namespace w (a, e) (b, f) (c, g) = rw (e, f, g) refl

  rest_again :
      (namespace : String) (conf : BackupConfiguration) (repo : Repo) (w : C.World)
      → Found namespace conf repo w
      → (create_bs_creator_rbac C namespace
            >> (add_sidecars C P namespace (started C P conf) conf.spec.targets >>= finish C P))
          w
        ≡ finish C P (with_sidecars C P (not (is_empty conf.spec.targets)) (started C P conf)) w
  rest_again namespace conf repo w (a, b, c, r, h) =
      rw
        (
          create_bs_creator_rbac_again namespace w a b c,
          add_sidecars_again namespace conf.spec.image (started C P conf) repo conf.spec.targets w
              refl r h,
        )
        refl

  -- The update of the cron job leaves all of this.
  update-Found :
      (namespace : String) (conf : BackupConfiguration) (repo : Repo) (job : CronJob) (w : C.World)
      → Found namespace conf repo w
      → Found namespace conf repo (C.update Kind.cron_job job w).1
  update-Found namespace conf repo job w ((a, e), (b, f), (c, g), r, h) =
      let other = (L.stores Kind.cron_job refl).get-update_other in
      (
        (a, other Kind.service_account job _ w (λ i. ground arith) ∙ e),
        (b, other Kind.role job _ w (λ i. ground arith) ∙ f),
        (c, other Kind.role_binding job _ w (λ i. ground arith) ∙ g),
        other Kind.repo job (repo_key conf) w (λ i. ground arith) ∙ r,
        kept-TargetHasSidecar C L P namespace conf.spec.image conf conf.spec.targets w _
            (Leaves-KeepsAll C (WithImage conf.spec.image) (C.update Kind.cron_job job) w
              (λ key v. other Kind.deployment job key v (λ i. ground arith))
              (λ key v. other Kind.stateful_set job key v (λ i. ground arith)))
            h,
      )

  pub run_again :
      (req : ObjectKey) (conf : BackupConfiguration) (repo : Repo) (job : CronJob) (w : C.World)
      → C.get Kind.backup_configuration req w ≡ ok conf
      → is_deleted C conf ≡ false
      → is_finalized C conf ≡ true
      → add_cron_job C conf w ≡ C.update Kind.cron_job job w
      → Found req.namespace conf repo w
      → reconcile_conf C P req w
        ≡ (C.update Kind.cron_job job
              >> finish C P
                  (with_sidecars C P (not (is_empty conf.spec.targets)) (started C P conf)))
            w
  unfolding reconcile_conf set_up_conf
  run_again req conf repo job w found d f h all =
      let rest =
        create_bs_creator_rbac C req.namespace
        >> (add_sidecars C P req.namespace (started C P conf) conf.spec.targets >>= finish C P) in
      let e : reconcile_conf C P req w ≡ set_up_conf C P req.namespace conf w =
        rw (found, reconcile_conf, d) refl in
      e
      ∙ set_up_conf_lem C P req.namespace conf w f
      ∙ ap (λ p. resume (λ _. rest) p.0 p.1) h
      ∙ resumed_alike (C.update Kind.cron_job job w).0 rest _ (C.update Kind.cron_job job w).1 (λ _.
        rest_again req.namespace conf repo _ (update-Found req.namespace conf repo job w all))
