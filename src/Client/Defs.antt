-- ===== src/Client/Defs.antt =====
-- What the controllers use of controller-runtime and of the API server, as a record of operations
-- over an unknown state of the cluster. The code of these operations is not in the repository.

use formol.Prelude.{ℕ, String, Bool, Option, List}
use formol.Outcome.{Result}
use formol.Api.Meta.{Time, ObjectKey, ObjectMeta}
use formol.Api.Config.{BackupConfiguration}
use formol.Api.Session.{SessionState, BackupSession}
use formol.Api.Objects.{Kind, Object, CronJob}

pub record Client : Type 1 where
  pub World : Type 0
  -- `Get` into an object of the kind, `Create`, `Update`, `Status().Update` and `Delete`.
  pub get : (k : Kind) → ObjectKey → World → Result (Object k)
  pub create : (k : Kind) → Object k → World → Result (Unit {0}) × World
  pub update : (k : Kind) → Object k → World → Result (Unit {0}) × World
  pub update_status : (k : Kind) → Object k → World → Result (Unit {0}) × World
  pub delete : (k : Kind) → Object k → World → Result (Unit {0}) × World
  -- `Get` into a nil interface.
  pub get_nil : ObjectKey → World → Result (Unit {0})
  -- `List` of the backup sessions of a namespace whose indexed state is the given one.
  pub list_backup_sessions : String → SessionState → World → Result (List BackupSession)
  -- The successive readings of the clock during a run.
  pub clock : World → ℕ → Time
  -- `metav1.Time.IsZero`, on a pointer.
  pub is_zero : Option Time → Bool
  -- controllerutil: finalizers and owners.
  pub contains_finalizer : ObjectMeta → String → Bool
  pub add_finalizer : ObjectMeta → String → ObjectMeta
  pub remove_finalizer : ObjectMeta → String → ObjectMeta
  pub set_controller_reference : BackupConfiguration → CronJob → Result CronJob
