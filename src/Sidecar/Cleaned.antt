-- ===== src/Sidecar/Cleaned.antt =====
-- A pod from which the sidecar has been removed.
use formol.Prelude.{
  ◌≡◌, refl, ◌∙◌, Bool, Bool-cases, false, not, List, [], ◌∷◌, any, keep_if, inl, inr,
}
use formol.Api.Config.{TargetContainer, Target}
use formol.Api.Pod.{Container}
use formol.Api.Objects.{Workload}
use formol.Sidecar.{is_sidecar}
use formol.Sidecar.Removal.{
  is_shared_mount, is_formol_volume, restore_containers, remove_tags, remove_all_tags, detach,
}
use formol.Sidecar.RoundTrip.{has_shared_mount}

filtered : {A : Type 0} (p : A → Bool) (xs : List A) → any p (keep_if (λ x. not (p x)) xs) ≡ false
filtered p [] = refl
filtered p (x ∷ xs) = elim (Bool-cases (p x)) [
  | inl h ↦ rw h (filtered p xs)
  | inr h ↦ rw (h, h) (filtered p xs)
]

-- No container has the name of the sidecar, no container mounts the shared volume, and there is no
-- volume of formol.
abbrev pub IsClean : Workload → Type 0
IsClean o =
    (any is_sidecar o.pod_spec.containers ≡ false)
    × (any has_shared_mount o.pod_spec.containers ≡ false)
    × (any is_formol_volume o.pod_spec.volumes ≡ false)

module _ (tcs : List TargetContainer) where
  untagged-sidecar :
      (cs : List Container) → any is_sidecar (remove_all_tags tcs cs) ≡ any is_sidecar cs
  unfolding remove_tags
  untagged-sidecar [] = refl
  untagged-sidecar (c ∷ cs) = rw (untagged-sidecar cs) refl

  untagged-mounts :
      (cs : List Container)
      → any has_shared_mount (remove_all_tags tcs cs) ≡ any has_shared_mount cs
  unfolding remove_tags
  untagged-mounts [] = refl
  untagged-mounts (c ∷ cs) = rw (untagged-mounts cs) refl

restored-sidecar : (cs : List Container) → any is_sidecar (restore_containers cs) ≡ false
unfolding restore_containers
restored-sidecar [] = refl
restored-sidecar (c ∷ cs) = elim (Bool-cases (is_sidecar c)) [
  | inl h ↦ rw h (restored-sidecar cs)
  | inr h ↦ rw (h, h) (restored-sidecar cs)
]

restored-mounts : (cs : List Container) → any has_shared_mount (restore_containers cs) ≡ false
unfolding restore_containers
restored-mounts [] = refl
restored-mounts (c ∷ cs) = elim (Bool-cases (is_sidecar c)) [
  | inl h ↦ rw h (restored-mounts cs)
  | inr h ↦ rw (h, filtered is_shared_mount c.volume_mounts) (restored-mounts cs)
]

pub detach-IsClean :
    (target : Target) (o : Workload) → IsClean (record o { pod_spec = detach target o.pod_spec })
unfolding detach
detach-IsClean target o =
    let cs = restore_containers o.pod_spec.containers in
    (
      untagged-sidecar target.containers cs ∙ restored-sidecar o.pod_spec.containers,
      untagged-mounts target.containers cs ∙ restored-mounts o.pod_spec.containers,
      filtered is_formol_volume o.pod_spec.volumes,
    )
