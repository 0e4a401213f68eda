-- ===== src/Rbac/Removal.antt =====
-- deleteRBAC as a list of removals.
use formol.Prelude.{◌≡◌, ◌≢◌, refl, ap, ◌∙◌, String, true, false, List, [], ◌∷◌, All, arith}
use formol.Api.Meta.{ObjectKey}
use formol.Api.Objects.{Kind, Object}
use formol.Client.{Client}
use formol.Client.Store.{IsCluster, IsStore, Keeps-resume, Leaves, Leaves-bind, is_builtin}
use formol.Outcome.{Error, ignore, Result, ok, err, panic, Action, return, resume, caught, ◌>>◌}
use formol.CronJobs.{bs_creator_sa}
use formol.Rbac.{remove, delete_rbac, key_in}
use formol.Rbac.Apart.{is_rbac, apart}
use formol.Rbac.Defs.{
  bs_creator_role_name, bs_creator_rolebinding_name, sidecar_role_name, sidecar_rolebinding_name,
  sidecar_clusterrole_name, sidecar_clusterrolebinding_name,
}

-- An object by its kind and key.
pub record Reference : Type 0 where
  pub kind : Kind
  pub key : ObjectKey

abbrev pub reference : Kind → ObjectKey → Reference
reference kind key = record { kind = kind; key = key }

abbrev pub IsBuiltin : Reference → Type 0
IsBuiltin p = is_builtin p.kind ≡ true

-- The RBAC objects of a namespace with a configuration.
abbrev pub rbac_objects : String → List Reference
rbac_objects namespace =
    reference Kind.role_binding (key_in namespace bs_creator_rolebinding_name)
    ∷ reference Kind.role_binding (key_in namespace sidecar_rolebinding_name)
    ∷ reference Kind.role (key_in namespace bs_creator_role_name)
    ∷ reference Kind.role (key_in namespace sidecar_role_name)
    ∷ reference Kind.service_account (key_in namespace bs_creator_sa)
    ∷ reference Kind.cluster_role_binding (key_in namespace sidecar_clusterrolebinding_name)
    ∷ reference Kind.cluster_role (key_in namespace sidecar_clusterrole_name)
    ∷ []

returned :
    {W : Type 0} (r : Result (Unit {0})) (w1 w' : W)
    → ((e : Error) → r ≢ err e)
    → resume (λ _. return tt) (caught r) w1 ≡ (ok tt, w')
    → ◌≡◌ {A = Result (Unit {0}) × W} (r, w1) (ok tt, w')
returned (ok tt) w1 w' n h = h
returned (err e) w1 w' n h = absurd (n e refl)
returned panic w1 w' n h = absurd (ground arith)

no_error :
    {W : Type 0} (m : Action W (Unit {0})) (w w' : W)
    → ((e : Error) → (m w).0 ≢ err e)
    → ignore m w ≡ (ok tt, w')
    → m w ≡ (ok tt, w')
no_error m w w' n h = returned (m w).0 (m w).1 w' n h

abbrev IsRbac : Reference → Type 0
IsRbac p = (is_builtin p.kind ≡ true) × (is_rbac p.kind ≡ true)

pub rbac_objects-IsBuiltin : (namespace : String) → All IsBuiltin (rbac_objects namespace)
rbac_objects-IsBuiltin namespace = (refl, (refl, (refl, (refl, (refl, (refl, (refl, tt)))))))

rbac_objects-IsRbac : (namespace : String) → All IsRbac (rbac_objects namespace)
rbac_objects-IsRbac namespace =
    let r : (true ≡ true) × (true ≡ true) = (refl, refl) in (r, (r, (r, (r, (r, (r, (r, tt)))))))

same_state_after :
    {W A : Type 0} (r : Result A) (w : W)
    → (resume {B = Unit {0}} (λ _. return tt) (caught r) w).1 ≡ w
same_state_after (ok a) w = refl
same_state_after (err e) w = refl
same_state_after panic w = refl

pub ignored_state : {W A : Type 0} (m : Action W A) (w : W) → (ignore m w).1 ≡ (m w).1
ignored_state m w = same_state_after (m w).0 (m w).1

-- An action whose error is passed over leaves what the action leaves.
pub ignored-Keeps :
    {W A R : Type 0} (m : Action W A) (f : W → R) (w : W) → f (m w).1 ≡ f w → f (ignore m w).1 ≡ f w
ignored-Keeps m f w h = ap f (ignored_state m w) ∙ h

module _ (C : Client) where
  -- The removals one after the other.
  abbrev pub remove_all : Reference → List Reference → Action C.World (Unit {0})
  remove_all p [] = remove C p.kind p.key
  remove_all p (q ∷ rest) = remove C p.kind p.key >> remove_all q rest

  abbrev pub remove_list : List Reference → Action C.World (Unit {0})
  remove_list [] = return tt
  remove_list (p ∷ rest) = remove_all p rest

  remove_all-ok :
      (p : Reference) (ps : List Reference) (w : C.World) (e : Error)
      → (remove_all p ps w).0 ≢ err e
  remove_all-ok p [] w e h = ground arith
  remove_all-ok p (q ∷ rest) w e h =
      ground (arith, remove_all-ok q rest (remove C p.kind p.key w).1 e)

  remove_list-ok : (ps : List Reference) (w : C.World) (e : Error) → (remove_list ps w).0 ≢ err e
  remove_list-ok [] w e h = ground arith
  remove_list-ok (p ∷ rest) w e h = remove_all-ok p rest w e h

  -- The removal of the RBAC objects returns no error that could be passed over.
  pub delete_rbac-ignored :
      (namespace : String) (w w' : C.World)
      → ignore (delete_rbac C namespace) w ≡ (ok tt, w')
      → delete_rbac C namespace w ≡ (ok tt, w')
  unfolding delete_rbac
  delete_rbac-ignored namespace w w' h =
      no_error (remove_list (rbac_objects namespace)) w w'
        (remove_list-ok (rbac_objects namespace) w) h

  -- A removal leaves the objects of other kinds.
  abbrev OfAnother : Kind → Reference → Type 0
  OfAnother l p = IsStore C p.kind × (p.kind ≢ l)

  found-Leaves :
      (l : Kind) (p : Reference) (r : Result (Object p.kind)) (key : ObjectKey) (w : C.World)
      → OfAnother l p
      → C.get l key (ignore (λ v. resume (C.delete p.kind) r v) w).1 ≡ C.get l key w
  found-Leaves l p r key w (S, n) =
      ignored-Keeps (λ v. resume (C.delete p.kind) r v) (λ v. C.get l key v) w
        (Keeps-resume C l (C.delete p.kind) r key w (λ o v. S.get-delete_other l o key v n))

  pub remove-Leaves :
      (l : Kind) (p : Reference) → OfAnother l p → Leaves C l (remove C p.kind p.key)
  remove-Leaves l p h key w = found-Leaves l p (C.get p.kind p.key w) key w h

  remove_all-Leaves :
      (l : Kind) (p : Reference) (ps : List Reference)
      → All (OfAnother l) (p ∷ ps)
      → Leaves C l (remove_all p ps)
  remove_all-Leaves l p [] (h, _) = remove-Leaves l p h
  remove_all-Leaves l p (q ∷ rest) (h, hs) =
      Leaves-bind C l (remove C p.kind p.key) (λ _. remove_all q rest) (remove-Leaves l p h)
        (λ _. remove_all-Leaves l q rest hs)

  others :
      (l : Kind)
      → IsCluster C
      → is_rbac l ≡ false
      → (ps : List Reference) → All IsRbac ps
      → All (OfAnother l) ps
  others l L o [] h = tt
  others l L o (p ∷ ps) ((b, r), h) = ((L.stores p.kind b, apart p.kind l r o), others l L o ps h)

  remove_list-Leaves :
      (l : Kind) (ps : List Reference) → All (OfAnother l) ps → Leaves C l (remove_list ps)
  remove_list-Leaves l [] h key w = refl
  remove_list-Leaves l (p ∷ rest) h key w = remove_all-Leaves l p rest h key w

  pub delete_rbac-Leaves :
      (l : Kind)
      → IsCluster C
      → is_rbac l ≡ false
      → (namespace : String) → Leaves C l (delete_rbac C namespace)
  unfolding delete_rbac
  delete_rbac-Leaves l L other namespace =
      remove_list-Leaves l (rbac_objects namespace)
        (others l L other (rbac_objects namespace) (rbac_objects-IsRbac namespace))
