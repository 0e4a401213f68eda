-- ===== src/Rbac/Laws.antt =====
-- The removal of the RBAC objects.
use formol.Prelude.{◌≡◌, ◌≢◌, refl, String, arith}
use formol.Api.Meta.{ObjectKey}
use formol.Api.Objects.{Kind, Object}
use formol.Client.{Client}
use formol.Outcome.{Result, ok, err, panic, Action, read, ◌>>=◌, resume, ignore}
use formol.Rbac.{remove, delete_rbac}

ignored_ok : {W A : Type 0} (m : Action W A) (w : W) → (m w).0 ≢ panic → (ignore m w).0 ≡ ok tt
ignored_ok m w h = ground arith

module _ (C : Client)
    (get-calm : (k : Kind) (key : ObjectKey) (w : C.World) → C.get k key w ≢ panic)
    (delete-calm : (k : Kind) (o : Object k) (w : C.World) → (C.delete k o w).0 ≢ panic) where
  found_calm :
      (k : Kind) (r : Result (Object k)) (w : C.World)
      → r ≢ panic
      → (resume (C.delete k) r w).0 ≢ panic
  found_calm k (ok o) w h = delete-calm k o w
  found_calm k (err e) w h = ground arith
  found_calm k panic w h = absurd (h refl)

  remove_ok : (k : Kind) (key : ObjectKey) (w : C.World) → (remove C k key w).0 ≡ ok tt
  remove_ok k key w =
      ignored_ok (read (C.get k key) >>= C.delete k) w (found_calm k _ w (get-calm k key w))

  -- With an API server whose reads and deletions return values or errors and do not panic,
  -- `deleteRBAC` returns no error, whatever is found or can be deleted.
  pub delete_rbac_total : (namespace : String) (w : C.World) → (delete_rbac C namespace w).0 ≡ ok tt
  unfolding delete_rbac
  delete_rbac_total namespace w =
      rw (delete_rbac, remove_ok, remove_ok, remove_ok, remove_ok, remove_ok, remove_ok, remove_ok)
        refl
