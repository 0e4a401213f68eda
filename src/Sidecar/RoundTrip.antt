-- ===== src/Sidecar/RoundTrip.antt =====
-- `DeleteSidecar` after `addSidecar`, on the pod specification of a target.
use formol.Prelude.{
  ◌≡◌, refl, ap, ◌∙◌, Bool, true, false, not, String, Option, none, some, List, [], ◌∷◌, ◌==◌, ◌||◌,
  any, snoc, keep_if, Bool-cases, inl, inr, if◌then◌else◌, arith,
}
use formol.Api.Config.{BackupType, TargetContainer, Target, BackupConfiguration}
use formol.Api.Pod.{EnvVar, VolumeMount, Volume, Container, PodSpec}
use formol.Api.Objects.{Repo, Local}
use formol.Sidecar.Mounts.{PathOps}
use formol.Sidecar.{
  Tagging, tag_of, tag_container, Tagged, tag_containers, mount_for, mount_repo, attach,
  get_sidecar, is_sidecar, shared_mount, add_shared_volume, shared_volume, formol_shared_volume,
  restic_repo_volume, sidecar_container_name, get_shared_path,
}
use formol.Sidecar.Removal.{
  is_shared_mount, is_formol_volume, restore_containers, remove_tags, remove_all_tags, detach,
}
use formol.Sidecar.Untag.{is_named, remove_tags-tagged}

abbrev pub kept_mounts : List VolumeMount → List VolumeMount
kept_mounts = keep_if (λ vm. not (is_shared_mount vm))

abbrev pub kept_volumes : List Volume → List Volume
kept_volumes = keep_if (λ v. not (is_formol_volume v))

abbrev pub cleaned : Container → Container
cleaned c = record c { volume_mounts = kept_mounts c.volume_mounts }

abbrev pub has_shared_mount : Container → Bool
has_shared_mount c = any is_shared_mount c.volume_mounts

keep_if-snoc :
    {A : Type 0} (p : A → Bool) (xs : List A) (x : A)
    → p x ≡ false
    → keep_if p (snoc xs x) ≡ keep_if p xs
keep_if-snoc p [] x h = rw h refl
keep_if-snoc p (y ∷ ys) x h = rw (keep_if-snoc p ys x h) refl

pub any-parts :
    {A : Type 0} (p : A → Bool) (x : A) (xs : List A)
    → any p (x ∷ xs) ≡ false
    → (p x ≡ false) × (any p xs ≡ false)
any-parts p x xs h = ground arith

keep_if-all :
    {A : Type 0} (p : A → Bool) (xs : List A) → any p xs ≡ false → keep_if (λ x. not (p x)) xs ≡ xs
keep_if-all p [] h = refl
keep_if-all p (x ∷ xs) h =
    let (one, others) = any-parts p x xs h in rw one (ap (λ l. x ∷ l) (keep_if-all p xs others))

shared-volume :
    (volumes : List Volume) → kept_volumes (add_shared_volume volumes) ≡ kept_volumes volumes
shared-volume volumes = elim (Bool-cases (any (λ v. v.name == formol_shared_volume) volumes)) [
  | inl e ↦ rw e refl
  | inr e ↦ rw e (keep_if-snoc (λ v. not (is_formol_volume v)) volumes shared_volume refl)
]

-- The environment of a container, replaced if the test is true.
abbrev pub retagged : Bool → List EnvVar → Container → Container
retagged b env c = record c { env = if b then env else c.env }

retagged-again :
    (b : Bool) (env : List EnvVar) (c : Container)
    → retagged b env (retagged true env c) ≡ retagged true env c
retagged-again true env c = refl
retagged-again false env c = refl

-- The name and the image of a container.
abbrev pub identity : Container → String × String
identity c = (c.name, c.image)

-- What stays of a container, the volumes and the sidecar.
abbrev pub Same : Container → List Volume → String × String → Tagging → Type 0
Same c volumes id t =
    (cleaned t.container ≡ cleaned c)
    × (kept_volumes t.volumes ≡ kept_volumes volumes)
    × (identity t.sidecar ≡ id)

untagged :
    (tcs : List TargetContainer) (c : Container)
    → has_shared_mount c ≡ false
    → remove_tags tcs (cleaned (retagged (is_named c.name tcs) (snoc c.env (tag_of c)) c)) ≡ c
untagged tcs c has_not =
    rw (keep_if-all is_shared_mount c.volume_mounts has_not)
      (remove_tags-tagged tcs (tag_of c) c refl)

restored_head :
    (tcs : List TargetContainer) (c now : Container) (rest others : List Container)
    → cleaned now ≡ cleaned (retagged (is_named c.name tcs) (snoc c.env (tag_of c)) c)
    → is_sidecar c ≡ false
    → has_shared_mount c ≡ false
    → remove_all_tags tcs (restore_containers others) ≡ rest
    → remove_all_tags tcs (restore_containers (now ∷ others)) ≡ c ∷ rest
unfolding restore_containers
restored_head tcs c now rest others same is_not has_not later =
    let is_not_now : is_sidecar now ≡ false = ap is_sidecar same ∙ is_not in
    rw (is_not_now, later, same) (ap (λ d. d ∷ rest) (untagged tcs c has_not))

module _ (P : PathOps) where
  mount_for-Same :
      (kind : BackupType) (found : Container) (tc : TargetContainer) (t : Tagging)
      → Same t.container t.volumes (identity t.sidecar) (mount_for P kind found tc t)
  unfolding mount_for get_shared_path
  mount_for-Same BackupType.online_kind found tc t = (refl, refl, refl)
  mount_for-Same BackupType.snapshot_kind found tc t = (refl, refl, refl)
  mount_for-Same BackupType.job_kind found tc t = (
    ap (λ vms. record t.container { volume_mounts = vms })
        (keep_if-snoc (λ vm. not (is_shared_mount vm)) t.container.volume_mounts (shared_mount tc)
          refl),
    shared-volume t.volumes,
    refl,
  )

  -- The rest of the loop, after a target container that has the name or has not.
  after-Same :
      (b : Bool) (kind : BackupType) (tc : TargetContainer) (rest : List TargetContainer)
      (found : Container) (t : Tagging)
      → ((u : Tagging)
          → Same
              (retagged (is_named found.name rest) (snoc found.env (tag_of found)) u.container)
              u.volumes
              (identity u.sidecar)
              (tag_container P kind rest found u))
      → Same
          (retagged (b || is_named found.name rest) (snoc found.env (tag_of found)) t.container)
          t.volumes
          (identity t.sidecar)
          (tag_container P kind rest found (
            if b
            then mount_for P kind found tc (record t {
              container = record t.container { env = snoc found.env (tag_of found) };
            })
            else t))
  after-Same true kind tc rest found t later =
      let tag = snoc found.env (tag_of found) in
      let t1 = record t { container = record t.container { env = tag } } in
      let b = is_named found.name rest in
      let (c1, v1, n1) = mount_for-Same kind found tc t1 in
      let (c2, v2, n2) = later (mount_for P kind found tc t1) in
      (
        c2 ∙ ap (retagged b tag) c1 ∙ ap cleaned (retagged-again b tag t.container),
        v2 ∙ v1,
        n2 ∙ n1,
      )
  after-Same false kind tc rest found t later = later t

  pub tag_container-Same :
      (kind : BackupType) (tcs : List TargetContainer) (found : Container) (t : Tagging)
      → Same
          (retagged (is_named found.name tcs) (snoc found.env (tag_of found)) t.container)
          t.volumes
          (identity t.sidecar)
          (tag_container P kind tcs found t)
  unfolding tag_container
  tag_container-Same kind [] found t = (refl, refl, refl)
  tag_container-Same kind (tc ∷ rest) found t =
      after-Same (tc.name == found.name) kind tc rest found t (tag_container-Same kind rest found)

  -- The containers, without the sidecar and untagged, are those before.
  tag_containers-restored :
      (target : Target) (cs : List Container) (volumes : List Volume) (sidecar : Container)
      → any is_sidecar cs ≡ false
      → any has_shared_mount cs ≡ false
      → is_sidecar sidecar ≡ true
      → let t = tag_containers P target cs volumes sidecar in
        (remove_all_tags target.containers (restore_containers t.containers) ≡ cs)
        × (kept_volumes t.volumes ≡ kept_volumes volumes)
        × (is_sidecar t.sidecar ≡ true)
  unfolding tag_containers restore_containers
  tag_containers-restored target [] volumes sidecar none_is none_has h = (refl, refl, h)
  tag_containers-restored target (c ∷ rest) volumes sidecar none_is none_has h =
      let kind = target.backup_type in
      let tcs = target.containers in
      let start : Tagging = record { container = c; volumes = volumes; sidecar = sidecar } in
      let t = tag_container P kind tcs c start in
      let later = tag_containers P target rest t.volumes t.sidecar in
      let (is_not, others_not) = any-parts is_sidecar c rest none_is in
      let (has_not, others_have) = any-parts has_shared_mount c rest none_has in
      let (same, vs, n) = tag_container-Same kind tcs c start in
      let (cs2, vs2, h2) =
        tag_containers-restored target rest t.volumes t.sidecar others_not others_have
          (ap (λ id. id.0 == sidecar_container_name) n ∙ h) in
      (restored_head tcs c t.container rest later.containers same is_not has_not cs2, vs2 ∙ vs, h2)

  restored_but_last :
      (cs : List Container) (c : Container)
      → is_sidecar c ≡ true
      → restore_containers (snoc cs c) ≡ restore_containers cs
  unfolding restore_containers
  restored_but_last [] c h = rw h refl
  restored_but_last (d ∷ cs) c h = rw (restored_but_last cs c h) refl

  -- A local repository gives the sidecar a mount and the pod a volume, which `DeleteSidecar` removes.
  pub mount_repo-kept :
      (local : Option Local) (t : Tagged)
      → ((mount_repo P local t).containers ≡ t.containers)
        × (kept_volumes (mount_repo P local t).volumes ≡ kept_volumes t.volumes)
        × (identity (mount_repo P local t).sidecar ≡ identity t.sidecar)
  mount_repo-kept none t = (refl, refl, refl)
  mount_repo-kept (some local) t = (
    refl,
    keep_if-snoc (λ v. not (is_formol_volume v)) t.volumes
        (record { name = restic_repo_volume; volume_source = local.volume_source }) refl,
    refl,
  )

  -- In a pod with no container of the sidecar's name, no mount of the shared volume and neither of
  -- the two volumes of formol, `DeleteSidecar` after `addSidecar` gives the pod back as it was, but
  -- with a shared process namespace, whatever backup type, target containers and repository the
  -- configuration has.
  pub detach-attach :
      (conf : BackupConfiguration) (target : Target) (repo : Repo) (pod : PodSpec)
      → any is_sidecar pod.containers ≡ false
      → any has_shared_mount pod.containers ≡ false
      → any is_formol_volume pod.volumes ≡ false
      → detach target (attach P conf target repo pod)
        ≡ record pod { share_process_namespace = some true }
  unfolding detach attach get_sidecar
  detach-attach conf target repo pod not_is not_has not_in =
      let t0 = tag_containers P target pod.containers pod.volumes (get_sidecar conf target) in
      let t = mount_repo P repo.spec.backend.local t0 in
      let (cs0, vs0, n0) =
        tag_containers-restored target pod.containers pod.volumes (get_sidecar conf target) not_is
          not_has refl in
      let (cs1, vs1, n1) = mount_repo-kept repo.spec.backend.local t0 in
      let cs =
        ap (remove_all_tags target.containers) (
          restored_but_last t.containers t.sidecar
            (ap (λ id. id.0 == sidecar_container_name) n1 ∙ n0)
          ∙ ap restore_containers cs1)
        ∙ cs0 in
      let vs = vs1 ∙ vs0 ∙ keep_if-all is_formol_volume pod.volumes not_in in rw (cs, vs) refl
