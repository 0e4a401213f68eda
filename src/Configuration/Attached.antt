-- ===== src/Configuration/Attached.antt =====
-- What a run of `addSidecar`, and of the loop over the targets, leaves in the cluster.
use formol.Prelude.{
  ◌≡◌, refl, sym, ap, ◌∙◌, String, Bool-cases, true, Option, none, some, List, [], ◌∷◌, All, inl,
  inr, ◌==◌, eq_iff, arith,
}
use mathlib.Core.Path.{subst}
use formol.Api.Meta.{ObjectKey}
use formol.Api.Config.{Target, BackupConfiguration}
use formol.Api.Objects.{Kind, Repo, Workload}
use formol.Client.{Client}
use formol.Client.Store.{IsCluster}
use formol.Outcome.{Result, ok, err, panic, read, lift, resume}
use formol.Outcome.Laws.{bound}
use formol.Sidecar.{WorkloadKind, get_target_objects, attach, sidecar_image, set_sidecar_image}
use formol.Sidecar.Mounts.{PathOps}
use formol.Sidecar.Once.{sidecar_image-attach}
use formol.Rbac.{create_sidecar_rbac}
use formol.Rbac.Apart.{create_sidecar_rbac-Leaves}
use formol.Configuration.{
  repo_key, target_key, get_workload, update_workload, attach_sidecar, add_sidecar, add_sidecars,
}
use formol.Configuration.RoundTrip.{read_workload, got, written}
use formol.Configuration.Sidecars.{
  any-sidecar_image, sidecar_image-set, HasSidecar, KeepsSidecars, WithImage, Leaves-KeepsAll,
  elsewhere,
}

module _ (C : Client) (L : IsCluster C) (P : PathOps) (namespace : String)
    (conf : BackupConfiguration) (target : Target) where
  -- The object of the target has the sidecar of the configuration, and no other has lost its own.
  abbrev Attached : C.World → C.World → Type 0
  Attached w w' =
      ((k : WorkloadKind) × (get_target_objects target.target_kind ≡ some k)
        × HasSidecar C conf.spec.image k (target_key conf target) w')
      × KeepsSidecars C conf.spec.image w w'

  module _ (k : WorkloadKind) (known : get_target_objects target.target_kind ≡ some k)
      (o : Workload) (w : C.World)
      (found : read_workload C k (target_key conf target) w ≡ ok o) where
    overwritten :
        (new : Workload) (w1 w' : C.World)
        → new.metadata ≡ o.metadata
        → sidecar_image new.pod_spec.containers ≡ some conf.spec.image
        → KeepsSidecars C conf.spec.image w w1
        → update_workload C (some k) new w1 ≡ (ok tt, w')
        → Attached w w'
    overwritten new w1 w' same image keeps h =
        let there =
          written C (L.stores Kind.deployment refl) (L.stores Kind.stateful_set refl) k
            (target_key conf target) o new w w1 w' found same h in
        (
          (k, known, (new, there, image)),
          λ k' key' has.
              elsewhere C L (WithImage conf.spec.image) k k' new key' w1 w' h image
                (keeps k' key' has),
        )

    attached :
        (repo : Repo) (image : Option String) (w' : C.World)
        → sidecar_image o.pod_spec.containers ≡ image
        → attach_sidecar C P namespace conf target repo o image w ≡ (ok tt, w')
        → Attached w w'
    attached repo none w' i h =
        let (u, e, h1) =
          bound (create_sidecar_rbac C namespace o.pod_spec)
            (λ _.
              update_workload C (get_target_objects target.target_kind)
                (record o { pod_spec = attach P conf target repo o.pod_spec }))
            w tt w' h in
        overwritten (record o { pod_spec = attach P conf target repo o.pod_spec }) _ w' refl
          (sidecar_image-attach P conf target repo o.pod_spec
            (any-sidecar_image o.pod_spec.containers i))
          (Leaves-KeepsAll C (WithImage conf.spec.image)
            (create_sidecar_rbac C namespace o.pod_spec) w
            (create_sidecar_rbac-Leaves C L Kind.deployment refl namespace o.pod_spec)
            (create_sidecar_rbac-Leaves C L Kind.stateful_set refl namespace o.pod_spec))
          (rw known at h1)
    attached repo (some image) w' i h = elim (Bool-cases (image == conf.spec.image)) [
      | inl same ↦
          let here : w ≡ w' = ap (λ p. p.1) (rw same at h) in
          let e : image ≡ conf.spec.image = (eq_iff image conf.spec.image).0 same in
          subst (Attached w) here ((k, known, (o, found, i ∙ ap some e)), λ k' key' has. has)
      | inr differs ↦
          overwritten
            (record o {
              pod_spec = record o.pod_spec {
                containers = set_sidecar_image conf.spec.image o.pod_spec.containers;
              };
            })
            w w' refl (sidecar_image-set conf.spec.image image o.pod_spec.containers i)
            (λ k' key' has. has) (rw (differs, known) at h)
    ]

  no_object :
      (key : ObjectKey) (r : Result (Unit {0})) (o : Workload) (w : C.World)
      → ¬ ((resume {W = C.World} {B = Workload} (λ _. lift panic) r w).0 ≡ ok o)
  no_object key (ok _) o w h = ground arith
  no_object key (err e) o w h = ground arith
  no_object key panic o w h = ground arith

  attached_to :
      (repo : Repo) (o : Workload) (m : Option WorkloadKind) (w w' : C.World)
      → get_target_objects target.target_kind ≡ m
      → (get_workload C m (target_key conf target) w).0 ≡ ok o
      → attach_sidecar C P namespace conf target repo o
          (sidecar_image o.pod_spec.containers)
          (get_workload C m (target_key conf target) w).1
        ≡ (ok tt, w')
      → Attached w w'
  attached_to repo o none w w' e found h =
      absurd (no_object (target_key conf target) (C.get_nil (target_key conf target) w) o w found)
  attached_to repo o (some k) w w' e found h =
      let reads = got C k (target_key conf target) w in
      attached k e o w (sym (ap (λ p. p.0) reads) ∙ found) repo _ w' refl (rw reads at h)

  pub add_sidecar-Attached :
      (w w' : C.World) → add_sidecar C P namespace conf target w ≡ (ok tt, w') → Attached w w'
  unfolding add_sidecar
  add_sidecar-Attached w w' h =
      let (repo, e, h1) = bound (read (C.get Kind.repo (repo_key conf))) _ w tt w' h in
      let (o, found, h2) =
        bound (get_workload C (get_target_objects target.target_kind) (target_key conf target)) _ w
          tt w' h1 in
      attached_to repo o (get_target_objects target.target_kind) w w' refl found h2

module _ (C : Client) (L : IsCluster C) (P : PathOps) (namespace image : String) where
  -- The object of a target of the configuration has the sidecar.
  abbrev pub TargetHasSidecar : BackupConfiguration → C.World → Target → Type 0
  TargetHasSidecar conf w target =
      (k : WorkloadKind) × (get_target_objects target.target_kind ≡ some k)
      × HasSidecar C image k (target_key conf target) w

  pub kept-TargetHasSidecar :
      (conf : BackupConfiguration) (targets : List Target) (w w' : C.World)
      → KeepsSidecars C image w w'
      → All (TargetHasSidecar conf w) targets
      → All (TargetHasSidecar conf w') targets
  kept-TargetHasSidecar conf [] w w' keeps h = tt
  kept-TargetHasSidecar conf (target ∷ rest) w w' keeps ((k, known, has), h) = (
    (k, known, keeps k (target_key conf target) has),
    kept-TargetHasSidecar conf rest w w' keeps h,
  )

  pub add_sidecars-Attached :
      (conf active : BackupConfiguration) (targets : List Target) (w w' : C.World)
      → conf.spec.image ≡ image
      → add_sidecars C P namespace conf targets w ≡ (ok active, w')
      → All (TargetHasSidecar conf w') targets × KeepsSidecars C image w w'
  unfolding add_sidecars
  add_sidecars-Attached conf active [] w w' e h =
      (tt, subst (KeepsSidecars C image w) (ap (λ p. p.1) h) (λ k key has. has))
  add_sidecars-Attached conf active (target ∷ rest) w w' e h =
      let more : BackupConfiguration = record conf {
        status = record conf.status { active_sidecar = true };
      } in
      let w1 = (add_sidecar C P namespace conf target w).1 in
      let (u, done, h1) = bound (add_sidecar C P namespace conf target) _ w active w' h in
      let (there, keeps) =
        subst
          (λ i.
            ((k : WorkloadKind) × (get_target_objects target.target_kind ≡ some k)
              × HasSidecar C i k (target_key conf target) w1)
            × KeepsSidecars C i w w1)
          e (add_sidecar-Attached C L P namespace conf target w w1 (ap (λ r. (r, w1)) done)) in
      let (k, known, has) = there in
      let (others, keeps_on) = add_sidecars-Attached more active rest w1 w' e h1 in
      (
        ((k, known, keeps_on k (target_key conf target) has), others),
        λ k' key' has'. keeps_on k' key' (keeps k' key' has'),
      )
