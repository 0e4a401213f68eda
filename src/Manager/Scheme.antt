-- ===== src/Manager/Scheme.antt =====
-- The init function of main.go, and which types the scheme of the manager knows.
use formol.Prelude.{◌≡◌, refl, ap, ◌∙◌, List, [], ◌∷◌, All}
use mathlib.Core.List.{Memᴰ}
use mathlib.Core.Path.{subst}
use formol.Api.Types.{
  ApiType, backup_configuration_type, backup_configuration_list, backup_session_type,
  backup_session_list, function_type, function_list, repo_type, repo_list, restore_session_type,
  restore_session_list, GroupVersion, group_version, Registry, scheme_builder,
}
use formol.Outcome.{ok, Action, ◌>>◌}
use formol.Outcome.Laws.{bound}

module _ (R : Registry) where
  -- `init` of main.go
  unfoldable pub init : Action R.Scheme (Unit {0})
  unfolding scheme_builder
  init = R.must R.client_go_add_to_scheme >> R.must (R.add_to_scheme (scheme_builder R))

  -- Once it has been added to a scheme, the scheme recognises the type.
  abbrev pub Adds : R.Builder → GroupVersion → ApiType → Type 0
  Adds b v t =
      (s : R.Scheme) → (R.add_to_scheme b s).0 ≡ ok tt → R.recognizes (R.add_to_scheme b s).1 v t

-- Documented behaviour: types are registered for the group and version of the builder, in addition to
-- those that are there, and `Must` goes on only where there is no error.
pub record IsRegistry (R : Registry) : Type 0 where
  pub version_of : R.Builder → GroupVersion
  pub version_of-new : (v : GroupVersion) → version_of (R.new_builder v) ≡ v
  pub version_of-register :
      (ts : List ApiType) (b : R.Builder) → version_of (R.register ts b) ≡ version_of b
  pub register-Adds :
      (t : ApiType) (ts : List ApiType) (b : R.Builder)
      → Memᴰ t ts
      → Adds R (R.register ts b) (version_of b) t
  pub must-ok :
      (m : Action R.Scheme (Unit {0})) (s s' : R.Scheme)
      → R.must m s ≡ (ok tt, s')
      → m s ≡ (ok tt, s')
  pub register-keeps :
      (t : ApiType) (v : GroupVersion) (ts : List ApiType) (b : R.Builder)
      → Adds R b v t
      → Adds R (R.register ts b) v t

-- The types of the group, in the order in which the files register them.
abbrev through_configuration : List ApiType
through_configuration = backup_configuration_type ∷ backup_configuration_list ∷ []

abbrev through_session : List ApiType
through_session = backup_session_type ∷ backup_session_list ∷ through_configuration

abbrev through_function : List ApiType
through_function = function_type ∷ function_list ∷ through_session

abbrev through_repo : List ApiType
through_repo = repo_type ∷ repo_list ∷ through_function

abbrev all_types : List ApiType
all_types = restore_session_type ∷ restore_session_list ∷ through_repo

pick : (P : ApiType → Type 0) → All P all_types → (t : ApiType) → P t
pick P h restore_session_type = h.0
pick P h restore_session_list = h.1.0
pick P h repo_type = h.1.1.0
pick P h repo_list = h.1.1.1.0
pick P h function_type = h.1.1.1.1.0
pick P h function_list = h.1.1.1.1.1.0
pick P h backup_session_type = h.1.1.1.1.1.1.0
pick P h backup_session_list = h.1.1.1.1.1.1.1.0
pick P h backup_configuration_type = h.1.1.1.1.1.1.1.1.0
pick P h backup_configuration_list = h.1.1.1.1.1.1.1.1.1.0

module _ (R : Registry) (L : IsRegistry R) where
  -- The types that are registered with a builder of the group.
  abbrev Known : List ApiType → R.Builder → Type 0
  Known ts b = (L.version_of b ≡ group_version) × All (Adds R b group_version) ts

  kept :
      (new ts : List ApiType) (b : R.Builder)
      → All (Adds R b group_version) ts
      → All (Adds R (R.register new b) group_version) ts
  kept new [] b h = tt
  kept new (t ∷ ts) b (h, hs) = (L.register-keeps t group_version new b h, kept new ts b hs)

  register-Known :
      (t u : ApiType) (ts : List ApiType) (b : R.Builder)
      → Known ts b
      → Known (t ∷ u ∷ ts) (R.register (t ∷ u ∷ []) b)
  register-Known t u ts b (v, h) =
      let new = t ∷ u ∷ [] in
      let added : (s : ApiType) → Memᴰ s new → Adds R (R.register new b) group_version s =
        λ s m. subst (λ x. Adds R (R.register new b) x s) v (L.register-Adds s new b m) in
      (
        L.version_of-register new b ∙ v,
        (added t (Memᴰ.head refl), (added u (Memᴰ.tail (Memᴰ.head refl)), kept new ts b h)),
      )

  scheme_builder-Known : Known all_types (scheme_builder R)
  unfolding scheme_builder
  scheme_builder-Known = register-Known restore_session_type restore_session_list through_repo _ (
      register-Known repo_type repo_list through_function _ (
        register-Known function_type function_list through_session _ (
          register-Known backup_session_type backup_session_list through_configuration _ (
            register-Known backup_configuration_type backup_configuration_list [] _
              (L.version_of-new group_version, tt)))))

  -- With a registry that keeps what is registered: after the init functions of main.go and of the
  -- package have run without a panic, the scheme recognises every type of the group, the resources and
  -- their lists, in the group and version of the program.
  pub init-recognizes :
      (s s' : R.Scheme) (t : ApiType) → init R s ≡ (ok tt, s') → R.recognizes s' group_version t
  unfolding init
  init-recognizes s s' t h =
      let first = R.must R.client_go_add_to_scheme in
      let last = R.add_to_scheme (scheme_builder R) in
      let (u, e, h1) = bound first (λ _. R.must last) s tt s' h in
      let run = L.must-ok last (first s).1 s' h1 in
      subst (λ x. R.recognizes x group_version t) (ap (λ p. p.1) run)
        (pick (Adds R (scheme_builder R) group_version) scheme_builder-Known.1 t (first s).1
          (ap (λ p. p.0) run))
