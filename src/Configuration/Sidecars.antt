-- ===== src/Configuration/Sidecars.antt =====
-- The sidecar of every target in the cluster.
use formol.Prelude.{
  ◌≡◌, refl, sym, ap, ◌∙◌, String, Bool-cases, false, none, some, List, [], ◌∷◌, any, inl, inr,
  arith,
}
use formol.Api.Meta.{ObjectKey, key_of}
use formol.Api.Pod.{Container}
use formol.Api.Objects.{Kind, Workload}
use formol.Client.{Client}
use formol.Client.Store.{IsCluster, Leaves, get-at, key-cases}
use formol.Outcome.{ok, Action}
use formol.Sidecar.{
  WorkloadKind, deployment, stateful_set, is_sidecar, sidecar_image, set_sidecar_image,
}
use formol.Configuration.{update_workload}
use formol.Configuration.RoundTrip.{read_workload}

pub any-sidecar_image : (cs : List Container) → sidecar_image cs ≡ none → any is_sidecar cs ≡ false
unfolding sidecar_image
any-sidecar_image [] h = refl
any-sidecar_image (c ∷ rest) h = elim (Bool-cases (is_sidecar c)) [
  | inl s ↦ absurd (cc (rw s at h))
  | inr s ↦ rw s (any-sidecar_image rest (rw s at h))
]

pub sidecar_image-set :
    (image old : String) (cs : List Container)
    → sidecar_image cs ≡ some old
    → sidecar_image (set_sidecar_image image cs) ≡ some image
unfolding sidecar_image set_sidecar_image
sidecar_image-set image old [] h = absurd (cc h)
sidecar_image-set image old (c ∷ rest) h = elim (Bool-cases (is_sidecar c)) [
  | inl s ↦ rw (s, s) refl
  | inr s ↦ rw (s, s) (sidecar_image-set image old rest (rw s at h))
]

-- A workload whose pod has a sidecar with the image.
abbrev pub WithImage : String → Workload → Type 0
WithImage image o = sidecar_image o.pod_spec.containers ≡ some image

module _ (C : Client) where
  -- There is an object of a target, of which a property holds.
  abbrev pub Has : (Workload → Type 0) → WorkloadKind → ObjectKey → C.World → Type 0
  Has Q k key w = (o : Workload) × (read_workload C k key w ≡ ok o) × Q o

  -- The property is lost of no object.
  abbrev pub KeepsAll : (Workload → Type 0) → C.World → C.World → Type 0
  KeepsAll Q w w' = (k : WorkloadKind) (key : ObjectKey) → Has Q k key w → Has Q k key w'

  abbrev pub HasSidecar : String → WorkloadKind → ObjectKey → C.World → Type 0
  HasSidecar image = Has (WithImage image)

  abbrev pub KeepsSidecars : String → C.World → C.World → Type 0
  KeepsSidecars image = KeepsAll (WithImage image)

  pub Leaves-KeepsAll :
      {A : Type 0} (Q : Workload → Type 0) (m : Action C.World A) (w : C.World)
      → Leaves C Kind.deployment m
      → Leaves C Kind.stateful_set m
      → KeepsAll Q w (m w).1
  Leaves-KeepsAll Q m w d s deployment key (o, e, i) = (o, d key w ∙ e, i)
  Leaves-KeepsAll Q m w d s stateful_set key (o, e, i) = (o, s key w ∙ e, i)

module _ (C : Client) (L : IsCluster C) (Q : Workload → Type 0) where
  pub elsewhere :
      (k k' : WorkloadKind) (new : Workload) (key : ObjectKey) (w w' : C.World)
      → update_workload C (some k) new w ≡ (ok tt, w')
      → Q new
      → Has C Q k' key w
      → Has C Q k' key w'
  elsewhere deployment stateful_set new key w w' h i (o, e, j) = (
    o,
    get-at C Kind.stateful_set refl (ap (λ p. p.1) h) (
        (L.stores Kind.deployment refl).get-update_other Kind.stateful_set new key w
          (λ f. ground arith)
        ∙ e),
    j,
  )
  elsewhere stateful_set deployment new key w w' h i (o, e, j) = (
    o,
    get-at C Kind.deployment refl (ap (λ p. p.1) h) (
        (L.stores Kind.stateful_set refl).get-update_other Kind.deployment new key w
          (λ f. ground arith)
        ∙ e),
    j,
  )
  elsewhere deployment deployment new key w w' h i (o, e, j) =
      let S = L.stores Kind.deployment refl in
      elim (key-cases key (key_of new.metadata)) [
        | inl same ↦ (
          new,
          get-at C Kind.deployment (sym same) (ap (λ p. p.1) h)
              (S.get-update new w (ap (λ p. p.0) h)),
          i,
        )
        | inr n ↦ (
          o,
          get-at C Kind.deployment refl (ap (λ p. p.1) h) (S.get-update_elsewhere new key w n ∙ e),
          j,
        )
      ]
  elsewhere stateful_set stateful_set new key w w' h i (o, e, j) =
      let S = L.stores Kind.stateful_set refl in
      elim (key-cases key (key_of new.metadata)) [
        | inl same ↦ (
          new,
          get-at C Kind.stateful_set (sym same) (ap (λ p. p.1) h)
              (S.get-update new w (ap (λ p. p.0) h)),
          i,
        )
        | inr n ↦ (
          o,
          get-at C Kind.stateful_set refl (ap (λ p. p.1) h)
              (S.get-update_elsewhere new key w n ∙ e),
          j,
        )
      ]
