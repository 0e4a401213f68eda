-- ===== src/Tests/Configurations.antt =====
-- Runs of the reconciler of backup configurations.
use formol.Prelude.{◌≡◌, refl, true, false, some, [], ◌∷◌}
use formol.Api.Meta.{ObjectKey, named, zero_time}
use formol.Api.Config.{BackupType, BackupConfiguration}
use formol.Api.Objects.{Kind, Workload}
use formol.Outcome.{ok}
use formol.Sidecar.{attach, get_target_objects, sidecar_image}
use formol.CronJobs.{add_cron_job, new_cron_job}
use formol.CronJobs.Laws.{add_cron_job-update}
use formol.Rbac.{delete_rbac, create_bs_creator_rbac, create_sidecar_rbac}
use formol.BackupSession.{done}
use formol.Configuration.{add_sidecar, add_sidecars, set_up_conf, reconcile_conf}
use formol.Rbac.Laws.{delete_rbac_total}
use formol.Tests.Samples.{conf_of}
use formol.Tests.Cluster.{Cluster, cluster, get-calm, delete-calm}
use formol.Tests.Sidecars.{of_kind, pod, repo, paths}

abbrev conf : BackupConfiguration
conf =
    let c = conf_of (of_kind BackupType.job_kind ∷ []) in
    record c {
      metadata = record c.metadata {
        finalizers = "finalizer.backupconfiguration.formol.desmojim.fr" ∷ [];
      };
    }

abbrev key : ObjectKey
key = record { namespace = "ns"; name = "conf" }

abbrev db_object : Workload
db_object = record { metadata = named "ns" "db"; pod_spec = pod }

abbrev ready : Cluster
ready = record {
  conf = some conf;
  repo = some repo;
  cron_job = some (new_cron_job conf);
  deployment = some db_object;
}

abbrev with_sidecar : Workload
with_sidecar = record db_object {
  pod_spec = attach paths conf (of_kind BackupType.job_kind) repo pod;
}

abbrev after : Cluster
after = record ready { deployment = some with_sidecar }

-- An update for a configuration that has not changed.
suspension_updated :
    add_cron_job cluster conf ready ≡ cluster.update Kind.cron_job (new_cron_job conf) ready
suspension_updated = add_cron_job-update cluster conf (new_cron_job conf) false ready refl refl

abbrev active : BackupConfiguration
active = record conf {
  status = record conf.status { active_cron_job = true; active_sidecar = true };
}

abbrev end : Cluster
end = record after { conf = some active }

-- A run adds the sidecar and stores the status.
set_up : reconcile_conf cluster paths key ready ≡ (ok done, end)
unfolding reconcile_conf set_up_conf add_cron_job create_bs_creator_rbac add_sidecars add_sidecar
    create_sidecar_rbac attach get_target_objects sidecar_image
set_up = refl

abbrev deleted : BackupConfiguration
deleted = record conf { metadata = record conf.metadata { deletion_timestamp = some zero_time } }

abbrev deleting : Cluster
deleting = record after { conf = some deleted }

rbac_deleted : (delete_rbac cluster "ns" deleting).0 ≡ ok tt
rbac_deleted = delete_rbac_total cluster get-calm delete-calm "ns" deleting
