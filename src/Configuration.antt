-- ===== src/Configuration.antt =====
-- controllers/backupconfiguration_controller.go: the reconciler of backup configurations, with
-- addSidecar and DeleteSidecar of controllers/backupconfiguration_controller_helpers.go.
pub mod Laws
pub mod RoundTrip
pub mod Sidecars
pub mod Attached
pub mod Keeps
pub mod Ready
pub mod Repeat
pub mod Again
pub mod Removed
pub mod Detached
use formol.Prelude.{
  String, Bool, true, false, not, Option, none, some, List, [], ◌∷◌, ◌==◌, if◌then◌else◌,
}
use formol.Api.Meta.{ObjectKey}
use formol.Api.Config.{Target, BackupConfiguration}
use formol.Api.Objects.{Kind, Repo, Workload}
use formol.Client.{Client}
use formol.Outcome.{
  Result, ok, err, panic, is_not_found, Action, return, throw, read, lift, resume, ◌>>=◌, ◌>>◌,
  ignore, attempt, caught,
}
use formol.Sidecar.{WorkloadKind, get_target_objects, attach, sidecar_image, set_sidecar_image}
use formol.Sidecar.Mounts.{PathOps}
use formol.Sidecar.Removal.{detach}
use formol.CronJobs.{add_cron_job, delete_cron_job}
use formol.Rbac.{create_bs_creator_rbac, create_sidecar_rbac, delete_rbac}
use formol.BackupSession.{ReconcileResult, done}

abbrev pub conf_finalizer_name : String
conf_finalizer_name = "finalizer.backupconfiguration.formol.desmojim.fr"

abbrev pub repo_key : BackupConfiguration → ObjectKey
repo_key conf = record { namespace = conf.metadata.namespace; name = conf.spec.repository }

abbrev pub target_key : BackupConfiguration → Target → ObjectKey
target_key conf target = record { namespace = conf.metadata.namespace; name = target.target_name }

module _ (C : Client) where
  -- The object of a target. `GetTargetObjects` gives none for a kind that it does not know: the read
  -- is then into a nil interface, and the pod specification a nil pointer.
  abbrev pub get_workload : Option WorkloadKind → ObjectKey → Action C.World Workload
  get_workload (some WorkloadKind.deployment) key = read (C.get Kind.deployment key)
  get_workload (some WorkloadKind.stateful_set) key = read (C.get Kind.stateful_set key)
  get_workload none key = read (C.get_nil key) >> lift panic

  abbrev pub update_workload : Option WorkloadKind → Workload → Action C.World (Unit {0})
  update_workload (some WorkloadKind.deployment) o = C.update Kind.deployment o
  update_workload (some WorkloadKind.stateful_set) o = C.update Kind.stateful_set o
  update_workload none o = lift panic

  -- The body of the loop of `DeleteSidecar`.
  abbrev pub detach_target : BackupConfiguration → Target → Action C.World (Unit {0})
  detach_target conf target = do
    o ← get_workload (get_target_objects target.target_kind) (target_key conf target)
    update_workload (get_target_objects target.target_kind)
        (record o { pod_spec = detach target o.pod_spec })

  unfoldable pub detach_targets : BackupConfiguration → List Target → Action C.World (Unit {0})
  detach_targets conf [] = return tt
  detach_targets conf (target ∷ rest) = detach_target conf target >> detach_targets conf rest

  -- `DeleteSidecar`
  unfoldable pub delete_sidecar : BackupConfiguration → Action C.World (Unit {0})
  unfolding detach_targets
  delete_sidecar conf = do
    repo ← read (C.get Kind.repo (repo_key conf))
    detach_targets conf conf.spec.targets

  abbrev pub is_deleted : BackupConfiguration → Bool
  is_deleted conf = not (C.is_zero conf.metadata.deletion_timestamp)

  abbrev pub is_finalized : BackupConfiguration → Bool
  is_finalized conf = C.contains_finalizer conf.metadata conf_finalizer_name

  abbrev pub unfinalized : BackupConfiguration → BackupConfiguration
  unfinalized conf = record conf { metadata = C.remove_finalizer conf.metadata conf_finalizer_name }

  abbrev pub finalized : BackupConfiguration → BackupConfiguration
  finalized conf = record conf { metadata = C.add_finalizer conf.metadata conf_finalizer_name }

  -- The branch of a configuration that is being deleted; the namespace is that of the request.
  unfoldable pub delete_conf : String → BackupConfiguration → Action C.World ReconcileResult
  unfolding delete_sidecar delete_cron_job delete_rbac
  delete_conf namespace conf =
      if is_finalized conf
      then (do
        ignore (delete_sidecar conf)
        ignore (delete_cron_job C conf)
        ignore (delete_rbac C namespace)
        C.update Kind.backup_configuration (unfinalized conf)
        return done)
      else return done

  module _ (P : PathOps) where
    abbrev pub attach_sidecar :
        String
        → BackupConfiguration
        → Target
        → Repo
        → Workload
        → Option String
        → Action C.World (Unit {0})
    attach_sidecar namespace conf target repo o (some image) =
        if image == conf.spec.image
        then return tt
        else update_workload (get_target_objects target.target_kind) (record o {
          pod_spec = record o.pod_spec {
            containers = set_sidecar_image conf.spec.image o.pod_spec.containers;
          };
        })
    attach_sidecar namespace conf target repo o none = do
      create_sidecar_rbac C namespace o.pod_spec
      update_workload (get_target_objects target.target_kind)
          (record o { pod_spec = attach P conf target repo o.pod_spec })

    -- `addSidecar`
    unfoldable pub add_sidecar : String → BackupConfiguration → Target → Action C.World (Unit {0})
    unfolding attach create_sidecar_rbac
    add_sidecar namespace conf target = do
      repo ← read (C.get Kind.repo (repo_key conf))
      o ← get_workload (get_target_objects target.target_kind) (target_key conf target)
      attach_sidecar namespace conf target repo o (sidecar_image o.pod_spec.containers)

    -- The loop over the targets, with the configuration as the rest of the code has it.
    unfoldable pub add_sidecars :
        String → BackupConfiguration → List Target → Action C.World BackupConfiguration
    unfolding add_sidecar
    add_sidecars namespace conf [] = return conf
    add_sidecars namespace conf (target ∷ rest) =
        add_sidecar namespace conf target
        >> add_sidecars namespace
            (record conf { status = record conf.status { active_sidecar = true } }) rest

    -- From the test for the finalizer on.
    unfoldable pub set_up_conf : String → BackupConfiguration → Action C.World ReconcileResult
    unfolding add_cron_job create_bs_creator_rbac add_sidecars
    set_up_conf namespace conf =
        if is_finalized conf
        then (do
          add_cron_job C conf
          create_bs_creator_rbac C namespace
          active ←
              add_sidecars namespace
                (record conf { status = record conf.status { active_cron_job = true } })
                conf.spec.targets
          C.update_status Kind.backup_configuration active
          return done)
        else C.update Kind.backup_configuration (finalized conf) >> return done

    abbrev pub reconcile_found_conf : String → BackupConfiguration → Action C.World ReconcileResult
    reconcile_found_conf namespace conf =
        if is_deleted conf then delete_conf namespace conf else set_up_conf namespace conf

    -- `Reconcile`
    unfoldable pub reconcile_conf : ObjectKey → Action C.World ReconcileResult
    unfolding delete_conf set_up_conf
    reconcile_conf req w = elim (C.get Kind.backup_configuration req w) [
      | err e ↦ (if is_not_found e then return done else throw e) w
      | panic ↦ (panic, w)
      | ok conf ↦ reconcile_found_conf req.namespace conf w
    ]
