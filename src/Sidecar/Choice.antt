-- ===== src/Sidecar/Choice.antt =====
-- Which mount `GetVolumeMounts` chooses for a path.
use formol.Prelude.{
  ℕ, ltb, ◌+◌, ◌≡◌, ap, ◌∙◌, ◌⊎◌, inl, inr, String, Bool, true, ◌&&◌, List, get_elem?,
  if◌then◌else◌, Option, some,
}
use formol.Api.Pod.{VolumeMount}
use formol.Sidecar.Mounts.{PathOps, Choice, no_choice, choose}

module _ (P : PathOps) (i : ℕ) (path : String) (split_path : List String) where
  -- The mount is chosen for the path, for an item of its path that the path to back up has at the same
  -- index.
  abbrev pub IsChosen : VolumeMount → Choice → Type 0
  IsChosen vm c =
      (c ≡ choose P i path vm c.longest no_choice)
      × ((item : String) × (get_elem? (P.split vm.mount_path) c.longest ≡ some item)
          × (get_elem? split_path c.longest ≡ some item))

  abbrev pick : VolumeMount → ℕ → Bool → Choice
  pick vm j b =
      choose P i path vm j (record no_choice { mount = record no_choice.mount { read_only = b } })

  -- One of the mounts is chosen, if any is.
  abbrev pub IsChoice : List VolumeMount → Choice → Choice → Type 0
  IsChoice vms c0 c =
      (c ≡ c0) ⊎ ((k : ℕ) × (vm : VolumeMount) × (get_elem? vms k ≡ some vm) × IsChosen vm c)

  -- One round of the inner loop.
  abbrev next : Bool → VolumeMount → ℕ → Choice → Choice
  next same vm j c = if same && ltb c.longest j then choose P i path vm j c else c

  module _ (vm : VolumeMount) where
    -- The items are those of the path of the mount from index `j`.
    abbrev IsTail : ℕ → List String → Type 0
    IsTail j items = (m : ℕ) → get_elem? (P.split vm.mount_path) (j + m) ≡ get_elem? items m

    read_only :
        (c0 c : Choice)
        → c0.mount.read_only ≡ true
        → (c ≡ c0) ⊎ IsChosen vm c
        → c.mount.read_only ≡ true
    read_only c0 c h (inl e) = ap (λ d. d.mount.read_only) e ∙ h
    read_only c0 c h (inr (e, _)) = ap (λ d. d.mount.read_only) e
