-- ===== src/Sidecar/Untag.antt =====
-- `removeTags` on the environment of a container that `addSidecar` has tagged, and on one that it
-- has not.
use formol.Prelude.{
  ◌≡◌, refl, ap, Bool, true, false, String, List, [], ◌∷◌, ◌==◌, any, snoc, Bool-cases, inl, inr,
  if◌then◌else◌, length, ltb, arith,
}
use formol.Api.Config.{TargetContainer}
use formol.Api.Pod.{EnvVar, Container}
use formol.Sidecar.Removal.{Env, is_tag, last_or, but_last, untag_once, untag, remove_tags}

-- The configuration names a container.
abbrev pub is_named : String → List TargetContainer → Bool
is_named name = any (λ tc. tc.name == name)

last_or-snoc : (e : EnvVar) (env : List EnvVar) (tag : EnvVar) → last_or e (snoc env tag) ≡ tag
last_or-snoc e [] tag = refl
last_or-snoc e (x ∷ rest) tag = last_or-snoc x rest tag

but_last-snoc : (env : List EnvVar) (tag : EnvVar) → but_last (snoc env tag) ≡ env
but_last-snoc [] tag = refl
but_last-snoc (x ∷ []) tag = refl
but_last-snoc (x ∷ y ∷ rest) tag = ap (λ l. x ∷ l) (but_last-snoc (y ∷ rest) tag)

long : (e : EnvVar) (env : List EnvVar) (tag : EnvVar) → ltb 1 (length (e ∷ snoc env tag)) ≡ true
long e [] tag = refl
long e (x ∷ rest) tag = ground arith

-- The array of a tagged environment stays, and loses its last element once.
untag_once-tagged :
    (env : List EnvVar) (tag : EnvVar) (shorter : Bool)
    → is_tag tag ≡ true
    → untag_once (record { array = snoc env tag; shorter = shorter })
      ≡ record { array = snoc env tag; shorter = true }
unfolding untag_once
untag_once-tagged [] tag shorter h = rw h refl
untag_once-tagged (e ∷ env) tag shorter h = rw (long e env tag, last_or-snoc e env tag, h) refl

untag-done :
    (tcs : List TargetContainer) (name : String) (env : List EnvVar) (tag : EnvVar)
    → is_tag tag ≡ true
    → untag tcs name (record { array = snoc env tag; shorter = true })
      ≡ record { array = snoc env tag; shorter = true }
unfolding untag
untag-done [] name env tag h = refl
untag-done (tc ∷ rest) name env tag h = elim (Bool-cases (tc.name == name)) [
  | inl e ↦ rw (e, untag_once-tagged env tag true h) (untag-done rest name env tag h)
  | inr e ↦ rw e (untag-done rest name env tag h)
]

named_rest :
    (tc : TargetContainer) (rest : List TargetContainer) (name : String) (b : Bool)
    → (tc.name == name) ≡ false
    → is_named name (tc ∷ rest) ≡ b
    → is_named name rest ≡ b
named_rest tc rest name b e n = ground arith

untag-tagged :
    (tcs : List TargetContainer) (name : String) (env : List EnvVar) (tag : EnvVar)
    → is_tag tag ≡ true
    → is_named name tcs ≡ true
    → untag tcs name (record { array = snoc env tag; shorter = false })
      ≡ record { array = snoc env tag; shorter = true }
unfolding untag
untag-tagged [] name env tag h n = ground arith
untag-tagged (tc ∷ rest) name env tag h n = elim (Bool-cases (tc.name == name)) [
  | inl e ↦ rw (e, untag_once-tagged env tag false h) (untag-done rest name env tag h)
  | inr e ↦ rw e (untag-tagged rest name env tag h (named_rest tc rest name true e n))
]

untag-unnamed :
    (tcs : List TargetContainer) (name : String) (e : Env)
    → is_named name tcs ≡ false
    → untag tcs name e ≡ e
unfolding untag
untag-unnamed [] name e n = refl
untag-unnamed (tc ∷ rest) name e n = elim (Bool-cases (tc.name == name)) [
  | inl s ↦ ground arith
  | inr s ↦ rw s (untag-unnamed rest name e (named_rest tc rest name false s n))
]

-- The environment that `addSidecar` gives a container.
abbrev pub tagged_env : List TargetContainer → EnvVar → Container → List EnvVar
tagged_env tcs tag c = if is_named c.name tcs then snoc c.env tag else c.env

-- `removeTags` takes off what `addSidecar` has put on.
pub remove_tags-tagged :
    (tcs : List TargetContainer) (tag : EnvVar) (c : Container)
    → is_tag tag ≡ true
    → remove_tags tcs (record c { env = tagged_env tcs tag c }) ≡ c
unfolding remove_tags
remove_tags-tagged tcs tag c h = elim (Bool-cases (is_named c.name tcs)) [
  | inl n ↦
      rw (n, untag-tagged tcs c.name c.env tag h n)
        (ap (λ env. record c { env = env }) (but_last-snoc c.env tag))
  | inr n ↦ rw (n, untag-unnamed tcs c.name (record { array = c.env; shorter = false }) n) refl
]
