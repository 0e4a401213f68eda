-- ===== src/Sidecar/Once.antt =====
-- A pod that has the sidecar is recognised.
use formol.Prelude.{◌≡◌, refl, ap, ◌∙◌, true, false, some, List, [], ◌∷◌, ◌==◌, any, snoc}
use formol.Api.Config.{Target, BackupConfiguration}
use formol.Api.Pod.{Volume, Container, PodSpec}
use formol.Api.Objects.{Repo}
use formol.Sidecar.Mounts.{PathOps}
use formol.Sidecar.{
  Tagging, tag_container, tag_containers, mount_repo, attach, get_sidecar, is_sidecar,
  sidecar_image, sidecar_container_name,
}
use formol.Sidecar.RoundTrip.{tag_container-Same, mount_repo-kept, any-parts, identity}

sidecar_image-snoc :
    (cs : List Container) (c : Container)
    → any is_sidecar cs ≡ false
    → is_sidecar c ≡ true
    → sidecar_image (snoc cs c) ≡ some c.image
unfolding sidecar_image
sidecar_image-snoc [] c h s = rw s refl
sidecar_image-snoc (d ∷ cs) c h s =
    let (one, others) = any-parts is_sidecar d cs h in rw one (sidecar_image-snoc cs c others s)

module _ (P : PathOps) where
  untouched :
      (target : Target) (cs : List Container) (volumes : List Volume) (sidecar : Container)
      → any is_sidecar (tag_containers P target cs volumes sidecar).containers ≡ any is_sidecar cs
  unfolding tag_containers
  untouched target [] volumes sidecar = refl
  untouched target (c ∷ rest) volumes sidecar =
      let start : Tagging = record { container = c; volumes = volumes; sidecar = sidecar } in
      let t = tag_container P target.backup_type target.containers c start in
      let (same, vs, n) = tag_container-Same P target.backup_type target.containers c start in
      rw (untouched target rest t.volumes t.sidecar, ap is_sidecar same) refl

  sidecar_kept :
      (target : Target) (cs : List Container) (volumes : List Volume) (sidecar : Container)
      → identity (tag_containers P target cs volumes sidecar).sidecar ≡ identity sidecar
  unfolding tag_containers
  sidecar_kept target [] volumes sidecar = refl
  sidecar_kept target (c ∷ rest) volumes sidecar =
      let start : Tagging = record { container = c; volumes = volumes; sidecar = sidecar } in
      let t = tag_container P target.backup_type target.containers c start in
      let (same, vs, n) = tag_container-Same P target.backup_type target.containers c start in
      sidecar_kept target rest t.volumes t.sidecar ∙ n

  -- The image that `addSidecar` finds in a pod to which it has added the sidecar is the configured one.
  pub sidecar_image-attach :
      (conf : BackupConfiguration) (target : Target) (repo : Repo) (pod : PodSpec)
      → any is_sidecar pod.containers ≡ false
      → sidecar_image (attach P conf target repo pod).containers ≡ some conf.spec.image
  unfolding attach get_sidecar
  sidecar_image-attach conf target repo pod not_is =
      let new = get_sidecar conf target in
      let t0 = tag_containers P target pod.containers pod.volumes new in
      let t = mount_repo P repo.spec.backend.local t0 in
      let (cs, vs, n) = mount_repo-kept P repo.spec.backend.local t0 in
      let id = n ∙ sidecar_kept target pod.containers pod.volumes new in
      sidecar_image-snoc t.containers t.sidecar
        (ap (any is_sidecar) cs ∙ untouched target pod.containers pod.volumes new ∙ not_is)
        (ap (λ i. i.0 == sidecar_container_name) id)
      ∙ ap (λ i. some i.1) id
