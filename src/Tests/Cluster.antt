-- ===== src/Tests/Cluster.antt =====
-- A client over a cluster with a configuration, its repository, its cron job and a Deployment.
use formol.Prelude.{◌≢◌, arith, Option, none, some}
use formol.Api.Meta.{ObjectMeta, ObjectKey, zero_time}
use formol.Api.Config.{BackupConfiguration}
use formol.Api.Objects.{Kind, Object, Repo, CronJob, Workload}
use formol.Outcome.{panic, Result, ok, err, not_found}
use formol.Client.{Client}
use formol.Tests.Samples.{memory, slot}

pub record Cluster : Type 0 where
  pub conf : Option BackupConfiguration
  pub repo : Option Repo
  pub cron_job : Option CronJob
  pub deployment : Option Workload

abbrev cluster_get : (k : Kind) → ObjectKey → Cluster → Result (Object k)
cluster_get Kind.backup_configuration key w = slot (λ o. o.metadata) w.conf key
cluster_get Kind.repo key w = slot (λ o. o.metadata) w.repo key
cluster_get Kind.cron_job key w = slot (λ o. o.metadata) w.cron_job key
cluster_get Kind.deployment key w = slot (λ o. o.metadata) w.deployment key
cluster_get _ key w = err not_found

abbrev cluster_put : (k : Kind) → Object k → Cluster → Result (Unit {0}) × Cluster
cluster_put Kind.backup_configuration o w = (ok tt, record w { conf = some o })
cluster_put Kind.cron_job o w = (ok tt, record w { cron_job = some o })
cluster_put Kind.deployment o w = (ok tt, record w { deployment = some o })
cluster_put _ o w = (ok tt, w)

abbrev cluster_delete : (k : Kind) → Object k → Cluster → Result (Unit {0}) × Cluster
cluster_delete Kind.cron_job o w = (ok tt, record w { cron_job = none })
cluster_delete _ o w = (ok tt, w)

abbrev pub cluster : Client
cluster = record memory {
  World = Cluster;
  get = cluster_get;
  create = cluster_put;
  update = cluster_put;
  update_status = cluster_put;
  delete = cluster_delete;
  get_nil = λ key w. err not_found;
  list_backup_sessions = λ namespace state w. err not_found;
  clock = λ w i. zero_time;
}

slot-calm :
    {A : Type 0} (meta : A → ObjectMeta) (o : Option A) (key : ObjectKey) → slot meta o key ≢ panic
slot-calm meta none key = ground arith
slot-calm meta (some a) key = ground arith

pub get-calm : (k : Kind) (key : ObjectKey) (w : Cluster) → cluster.get k key w ≢ panic
get-calm Kind.backup_configuration key w = slot-calm (λ o. o.metadata) w.conf key
get-calm Kind.repo key w = slot-calm (λ o. o.metadata) w.repo key
get-calm Kind.cron_job key w = slot-calm (λ o. o.metadata) w.cron_job key
get-calm Kind.deployment key w = slot-calm (λ o. o.metadata) w.deployment key
get-calm _ key w = ground arith

pub delete-calm : (k : Kind) (o : Object k) (w : Cluster) → (cluster.delete k o w).0 ≢ panic
delete-calm Kind.cron_job o w = ground arith
delete-calm _ o w = ground arith
