-- ===== src/Tests/Removing.antt =====
-- Runs over the client that reads its own writes, for a configuration that is being deleted.
use formol.Prelude.{◌≡◌, refl, some, [], ◌∷◌, All}
use formol.Api.Meta.{zero_time}
use formol.Api.Config.{BackupConfiguration}
use formol.Api.Objects.{Kind}
use formol.Outcome.{ok}
use formol.Sidecar.{get_target_objects, sidecar_image, attach}
use formol.Sidecar.Removal.{detach}
use formol.CronJobs.{add_cron_job, delete_cron_job}
use formol.Rbac.{create_bs_creator_rbac, create_sidecar_rbac, delete_rbac}
use formol.Rbac.Removed.{Absent}
use formol.BackupSession.{done}
use formol.Configuration.{
  add_sidecar, add_sidecars, delete_sidecar, delete_conf, set_up_conf, reconcile_conf,
}
use formol.Configuration.Removed.{created_objects, reconcile_conf-Removed}
use formol.Configuration.Detached.{TargetIsClean, reconcile_conf-Clean}
use formol.Tests.Server.{Objects, server, put, server-readable, server-IsCluster, server-delete_ok}
use formol.Tests.Sidecars.{paths}
use formol.Tests.Serving.{conf, db, request, ready}

abbrev deleted : BackupConfiguration
deleted = record conf { metadata = record conf.metadata { deletion_timestamp = some zero_time } }

-- The cluster after a run for the configuration, which is then deleted.
abbrev deleting : Objects
deleting = put Kind.backup_configuration (deleted ∷ []) ready

abbrev gone : Objects
gone = (reconcile_conf server paths request deleting).1

reconciled_deletion : reconcile_conf server paths request deleting ≡ (ok done, gone)
unfolding reconcile_conf set_up_conf add_cron_job create_bs_creator_rbac add_sidecars add_sidecar
    create_sidecar_rbac get_target_objects sidecar_image attach delete_conf delete_sidecar
    delete_cron_job delete_rbac detach
reconciled_deletion = refl

reconcile_conf-Removed_example : All (Absent server gone) (created_objects "ns" deleted)
reconcile_conf-Removed_example =
    reconcile_conf-Removed server paths server-IsCluster server-readable
      (λ k key o v b h. server-delete_ok k o v) request deleted done deleting gone refl refl refl
      reconciled_deletion

reconcile_conf-Clean_example : All (TargetIsClean server server-IsCluster deleted gone) (db ∷ [])
unfolding reconcile_conf set_up_conf add_cron_job create_bs_creator_rbac add_sidecars add_sidecar
    create_sidecar_rbac get_target_objects sidecar_image attach delete_conf delete_sidecar
    delete_cron_job delete_rbac detach
reconcile_conf-Clean_example =
    reconcile_conf-Clean server server-IsCluster paths request deleted done deleting gone refl refl
      refl refl reconciled_deletion
