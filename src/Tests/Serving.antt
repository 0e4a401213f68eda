-- ===== src/Tests/Serving.antt =====
-- Runs over the client that reads its own writes: the objects of a configuration in the cluster.
use formol.Prelude.{◌≡◌, refl, true, false, some, [], ◌∷◌, All}
use formol.Api.Meta.{ObjectKey, named}
use formol.Api.Config.{BackupType, Target, BackupConfiguration, BackupConfigurationStatus}
use formol.Api.Objects.{Kind, Workload, CronJob}
use formol.Outcome.{ok, err, not_found, failed, return, ◌>>◌}
use formol.Client.{Client}
use formol.Sidecar.{deployment, get_target_objects, sidecar_image, attach}
use formol.Sidecar.Removal.{detach}
use formol.CronJobs.{bs_creator_sa, cron_job_key, add_cron_job, delete_cron_job}
use formol.CronJobs.Stored.{delete_cron_job-add}
use formol.Rbac.{key_in, create_bs_creator_rbac, create_sidecar_rbac}
use formol.Rbac.Defs.{bs_creator_role_name, bs_creator_rolebinding_name}
use formol.Rbac.Ensured.{Ensured}
use formol.Rbac.Created.{Exists, create_bs_creator_rbac-Exists, create_bs_creator_rbac_unread}
use formol.BackupSession.{done}
use formol.Configuration.{
  add_sidecar, add_sidecars, detach_target, target_key, set_up_conf, reconcile_conf,
}
use formol.Configuration.Attached.{TargetHasSidecar}
use formol.Configuration.Ready.{HasCronJob, reconcile_conf-Ready}
use formol.Configuration.Again.{reconcile_conf-again}
use formol.Configuration.RoundTrip.{detach_target-add_sidecar}
use formol.Tests.Samples.{conf_of}
use formol.Tests.Server.{
  Objects, server, server-IsStore, server-readable, server-IsOwnerSetter, server-IsCluster,
}
use formol.Tests.Sidecars.{of_kind, pod, repo, paths}

abbrev pub db : Target
db = of_kind BackupType.job_kind

abbrev pub conf : BackupConfiguration
conf =
    let c = conf_of (db ∷ []) in
    record c {
      metadata = record c.metadata {
        finalizers = "finalizer.backupconfiguration.formol.desmojim.fr" ∷ [];
      };
    }

abbrev db_object : Workload
db_object = record { metadata = named "ns" "db"; pod_spec = pod }

abbrev start : Objects
start Kind.backup_configuration = conf ∷ []
start Kind.repo = repo ∷ []
start Kind.deployment = db_object ∷ []
start _ = []

abbrev with_job : Objects
with_job = (add_cron_job server conf start).1

added : add_cron_job server conf start ≡ (ok tt, with_job)
unfolding add_cron_job
added = refl

abbrev without_job : Objects
without_job = (delete_cron_job server conf with_job).1

removed : delete_cron_job server conf with_job ≡ (ok tt, without_job)
unfolding add_cron_job delete_cron_job
removed = refl

delete_cron_job-add_example :
    ((job : CronJob) × (server.delete Kind.cron_job job with_job ≡ (ok tt, without_job))
      × (job.schedule ≡ conf.spec.schedule)
      × (job.suspend ≡ some false))
    × (server.get Kind.cron_job (cron_job_key conf) without_job ≡ err not_found)
delete_cron_job-add_example =
    delete_cron_job-add server (server-IsStore Kind.cron_job) server-IsOwnerSetter conf false refl
      start with_job without_job added removed

abbrev allowed : Objects
allowed = (create_bs_creator_rbac server "ns" start).1

allows : create_bs_creator_rbac server "ns" start ≡ (ok tt, allowed)
unfolding create_bs_creator_rbac
allows = refl

create_bs_creator_rbac-Exists_example :
    Exists server Kind.service_account (key_in "ns" bs_creator_sa) allowed
    × Exists server Kind.role (key_in "ns" bs_creator_role_name) allowed
    × Exists server Kind.role_binding (key_in "ns" bs_creator_rolebinding_name) allowed
create_bs_creator_rbac-Exists_example =
    create_bs_creator_rbac-Exists server (server-IsStore Kind.service_account)
      (server-IsStore Kind.role) (server-IsStore Kind.role_binding) server-readable "ns" start
      allowed allows

-- The service account of the pod is the default one, and the cluster role binding is new.
abbrev sidecar_allowed : Objects
sidecar_allowed = (create_sidecar_rbac server "ns" pod start).1

-- An API server that cannot be reached.
abbrev offline : Client
offline = record server { get = λ k key w. err (failed "no connection") }

-- The run succeeds and creates nothing.
none_created : create_bs_creator_rbac offline "ns" start ≡ (ok tt, start)
none_created =
    create_bs_creator_rbac_unread offline "ns" "no connection" "no connection" "no connection" start
      refl refl refl

abbrev backed_up : Objects
backed_up = (add_sidecar server paths "ns" conf db start).1

attached : add_sidecar server paths "ns" conf db start ≡ (ok tt, backed_up)
unfolding add_sidecar create_sidecar_rbac get_target_objects sidecar_image attach
attached = refl

abbrev restored : Objects
restored = (detach_target server conf db backed_up).1

detached : detach_target server conf db backed_up ≡ (ok tt, restored)
unfolding add_sidecar create_sidecar_rbac get_target_objects sidecar_image attach detach
detached = refl

detach_target-add_sidecar_example :
    server.get Kind.deployment (target_key conf db) restored
    ≡ ok (record db_object { pod_spec = record pod { share_process_namespace = some true } })
unfolding get_target_objects
detach_target-add_sidecar_example =
    detach_target-add_sidecar server (server-IsStore Kind.deployment)
      (server-IsStore Kind.stateful_set) paths "ns" conf db deployment refl db_object start
      backed_up restored refl refl refl refl attached detached

abbrev pub request : ObjectKey
request = record { namespace = "ns"; name = "conf" }

abbrev pub ready : Objects
ready = (reconcile_conf server paths request start).1

reconciled : reconcile_conf server paths request start ≡ (ok done, ready)
unfolding reconcile_conf set_up_conf add_cron_job create_bs_creator_rbac add_sidecars add_sidecar
    create_sidecar_rbac get_target_objects sidecar_image attach
reconciled = refl

reconcile_conf-Ready_example :
    HasCronJob server server-IsCluster paths conf ready
    × All (TargetHasSidecar server server-IsCluster paths "ns" conf.spec.image conf ready) (db ∷ [])
reconcile_conf-Ready_example =
    reconcile_conf-Ready server server-IsCluster paths request conf false done start ready refl refl
      refl refl reconciled

abbrev reconciled_status : BackupConfigurationStatus
reconciled_status = record conf.status { active_cron_job = true; active_sidecar = true }

-- The second run.
reconcile_conf-again_example :
    (job : CronJob) × (server.get Kind.cron_job (cron_job_key conf) ready ≡ ok job)
    × (reconcile_conf server paths request ready
        ≡ (server.update Kind.cron_job job
              >> (server.update_status Kind.backup_configuration (record conf {
                status = record reconciled_status { active_cron_job = true; active_sidecar = true };
              })
                  >> return done))
            ready)
unfolding reconcile_conf set_up_conf add_cron_job create_bs_creator_rbac add_sidecars add_sidecar
    create_sidecar_rbac get_target_objects sidecar_image attach
reconcile_conf-again_example =
    reconcile_conf-again server server-IsCluster paths server-readable request conf false done
      reconciled_status repo start ready refl refl refl refl reconciled refl refl
