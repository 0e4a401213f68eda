-- ===== src/Configuration/RoundTrip.antt =====
-- A target in the cluster, after `addSidecar` and then the round of `DeleteSidecar` for it.
use formol.Prelude.{◌≡◌, refl, ap, ◌∙◌, String, true, false, none, some, List, [], ◌∷◌, any}
use formol.Api.Meta.{ObjectKey, key_of}
use formol.Api.Config.{Target, BackupConfiguration}
use formol.Api.Pod.{Container}
use formol.Api.Objects.{Kind, Repo, Workload}
use formol.Client.{Client}
use formol.Client.Store.{IsStore, get-at}
use formol.Outcome.{Result, ok, read, ◌>>=◌, ◌>>◌}
use formol.Outcome.Laws.{bound}
use formol.Sidecar.{
  WorkloadKind, deployment, stateful_set, get_target_objects, attach, is_sidecar, sidecar_image,
}
use formol.Sidecar.Mounts.{PathOps}
use formol.Sidecar.Removal.{is_formol_volume, detach}
use formol.Sidecar.RoundTrip.{has_shared_mount, any-parts, detach-attach}
use formol.Rbac.{create_sidecar_rbac}
use formol.Configuration.{
  repo_key, target_key, get_workload, update_workload, attach_sidecar, add_sidecar, detach_target,
}

sidecar_image-none : (cs : List Container) → any is_sidecar cs ≡ false → sidecar_image cs ≡ none
unfolding sidecar_image
sidecar_image-none [] h = refl
sidecar_image-none (c ∷ rest) h =
    let (one, others) = any-parts is_sidecar c rest h in rw one (sidecar_image-none rest others)

module _ (C : Client) where
  -- The Deployment or the StatefulSet under a key.
  abbrev pub read_workload : WorkloadKind → ObjectKey → C.World → Result Workload
  read_workload deployment key w = C.get Kind.deployment key w
  read_workload stateful_set key w = C.get Kind.stateful_set key w

  pub got :
      (k : WorkloadKind) (key : ObjectKey) (w : C.World)
      → get_workload C (some k) key w ≡ (read_workload k key w, w)
  got deployment key w = refl
  got stateful_set key w = refl

module _ (C : Client) (D : IsStore C Kind.deployment) (S : IsStore C Kind.stateful_set) where
  -- What is written over an object is read under its key.
  pub written :
      (k : WorkloadKind) (key : ObjectKey) (o new : Workload) (w w1 w2 : C.World)
      → read_workload C k key w ≡ ok o
      → new.metadata ≡ o.metadata
      → update_workload C (some k) new w1 ≡ (ok tt, w2)
      → read_workload C k key w2 ≡ ok new
  written deployment key o new w w1 w2 found same h =
      get-at C Kind.deployment (ap key_of same ∙ D.get-key key w o found) (ap (λ p. p.1) h)
        (D.get-update new w1 (ap (λ p. p.0) h))
  written stateful_set key o new w w1 w2 found same h =
      get-at C Kind.stateful_set (ap key_of same ∙ S.get-key key w o found) (ap (λ p. p.1) h)
        (S.get-update new w1 (ap (λ p. p.0) h))

  module _ (P : PathOps) (namespace : String) (conf : BackupConfiguration) (target : Target)
      (k : WorkloadKind) (known : get_target_objects target.target_kind ≡ some k) where
    attach_new :
        (repo : Repo) (o : Workload) (w w1 : C.World)
        → attach_sidecar C P namespace conf target repo o none w ≡ (ok tt, w1)
        → (create_sidecar_rbac C namespace o.pod_spec
              >> update_workload C
                  (some k)
                  (record o { pod_spec = attach P conf target repo o.pod_spec }))
            w
          ≡ (ok tt, w1)
    attach_new repo o w w1 h = rw known at h

    added_to :
        (repo : Repo) (o : Workload) (w w1 : C.World)
        → read_workload C k (target_key conf target) w ≡ ok o
        → any is_sidecar o.pod_spec.containers ≡ false
        → (get_workload C (get_target_objects target.target_kind) (target_key conf target)
              >>= (λ o'.
                  attach_sidecar C P namespace conf target repo o'
                    (sidecar_image o'.pod_spec.containers)))
            w
          ≡ (ok tt, w1)
        → read_workload C k (target_key conf target) w1
          ≡ ok (record o { pod_spec = attach P conf target repo o.pod_spec })
    added_to repo o w w1 found not_is h =
        let none_there = sidecar_image-none o.pod_spec.containers not_is in
        let reads : get_workload C (get_target_objects target.target_kind) (target_key conf target)
              w
            ≡ (ok o, w) =
          rw (known, got C k (target_key conf target) w, found) refl in
        let h1 : attach_sidecar C P namespace conf target repo o none w ≡ (ok tt, w1) =
          rw (reads, none_there) at h in
        let (u, e, h2) =
          bound (create_sidecar_rbac C namespace o.pod_spec) _ w tt w1
            (attach_new repo o w w1 h1) in
        written k (target_key conf target) o _ w _ w1 found refl h2

    added :
        (o : Workload) (w w1 : C.World)
        → read_workload C k (target_key conf target) w ≡ ok o
        → any is_sidecar o.pod_spec.containers ≡ false
        → add_sidecar C P namespace conf target w ≡ (ok tt, w1)
        → (repo : Repo) × (read_workload C k (target_key conf target) w1
            ≡ ok (record o { pod_spec = attach P conf target repo o.pod_spec }))
    unfolding add_sidecar
    added o w w1 found not_is h =
        let (repo, e, h1) = bound (read (C.get Kind.repo (repo_key conf))) _ w tt w1 h in
        (repo, added_to repo o w w1 found not_is h1)

    detached :
        (o : Workload) (w w1 : C.World)
        → read_workload C k (target_key conf target) w ≡ ok o
        → detach_target C conf target w ≡ (ok tt, w1)
        → read_workload C k (target_key conf target) w1
          ≡ ok (record o { pod_spec = detach target o.pod_spec })
    detached o w w1 found h =
        let new = record o { pod_spec = detach target o.pod_spec } in
        let h1 : update_workload C (some k) new w ≡ (ok tt, w1) =
          rw (known, got C k (target_key conf target) w, found) at h in
        written k (target_key conf target) o new w w w1 found refl h1

    -- On a client that reads its own writes, a target whose pod has no container of the sidecar's
    -- name, no mount of the shared volume and neither of the volumes of formol is, after a run of
    -- `addSidecar` and a round of `DeleteSidecar` that succeed, as it was before, but with a shared
    -- process namespace.
    pub detach_target-add_sidecar :
        (o : Workload) (w w1 w2 : C.World)
        → read_workload C k (target_key conf target) w ≡ ok o
        → any is_sidecar o.pod_spec.containers ≡ false
        → any has_shared_mount o.pod_spec.containers ≡ false
        → any is_formol_volume o.pod_spec.volumes ≡ false
        → add_sidecar C P namespace conf target w ≡ (ok tt, w1)
        → detach_target C conf target w1 ≡ (ok tt, w2)
        → read_workload C k (target_key conf target) w2
          ≡ ok (record o { pod_spec = record o.pod_spec { share_process_namespace = some true } })
    detach_target-add_sidecar o w w1 w2 found not_is not_has not_in a d =
        let (repo, there) = added o w w1 found not_is a in
        let back = detach-attach P conf target repo o.pod_spec not_is not_has not_in in
        detached _ w1 w2 there d ∙ ap (λ pod. ok (record o { pod_spec = pod })) back
