-- ===== src/Rbac/Created.antt =====
-- Which of the RBAC objects of a namespace are there after `createBSCreatorRBAC` has succeeded.
use formol.Prelude.{◌≡◌, ◌≢◌, refl, ap, ◌∙◌, String, arith}
use mathlib.Core.Path.{subst}
use formol.Api.Meta.{ObjectKey, named}
use formol.Api.Objects.{Kind, Object, ServiceAccount}
use formol.Client.{Client}
use formol.Client.Store.{IsStore, key_in_kind, get-at, Leaves, Leaves-bind}
use formol.Outcome.{
  Result, ok, err, panic, not_found, failed, Action, read, resume, ◌>>◌, caught, attempt,
}
use formol.Outcome.Laws.{bound}
use formol.CronJobs.{bs_creator_sa}
use formol.Rbac.Defs.{
  bs_creator_role_name, bs_creator_rolebinding_name, bs_creator_role, account_binding,
}
use formol.Rbac.{ensure, create_missing, create_bs_creator_rbac, key_in}

module _ (C : Client) where
  -- An object of the kind is read under the key.
  abbrev pub Exists : Kind → ObjectKey → C.World → Type 0
  Exists k key w = (o : Object k) × (C.get k key w ≡ ok o)

  create_missing-Exists :
      (k : Kind)
      → IsStore C k
      → (o : Object k) (w w' : C.World) (r : Result (Object k)) → C.get k (key_in_kind k o) w ≡ r
      → ((s : String) → r ≢ err (failed s))
      → resume (create_missing C (C.create k o)) (caught r) w ≡ (ok tt, w')
      → Exists k (key_in_kind k o) w'
  create_missing-Exists k S o w w' (ok a) e readable h = (a, get-at C k refl (ap (λ p. p.1) h) e)
  create_missing-Exists k S o w w' (err not_found) e readable h =
      (o, get-at C k refl (ap (λ p. p.1) h) (S.get-create o w (ap (λ p. p.0) h)))
  create_missing-Exists k S o w w' (err (failed s)) e readable h = absurd (readable s refl)
  create_missing-Exists k S o w w' panic e readable h = absurd (ground arith)

  -- Where the read does not fail but for an object that is not found, the object is there afterwards.
  pub ensure-Exists :
      (k : Kind)
      → IsStore C k
      → (o : Object k) (w w' : C.World)
      → ((s : String) → C.get k (key_in_kind k o) w ≢ err (failed s))
      → ensure C k (key_in_kind k o) o w ≡ (ok tt, w')
      → Exists k (key_in_kind k o) w'
  ensure-Exists k S o w w' readable h =
      create_missing-Exists k S o w w' (C.get k (key_in_kind k o) w) refl readable h

  create_missing-Leaves :
      (l : Kind) (create : Action C.World (Unit {0})) {A : Type 0} (r : Result A)
      → Leaves C l create
      → Leaves C l (create_missing C create r)
  create_missing-Leaves l create (ok a) h key w = refl
  create_missing-Leaves l create (err not_found) h key w = h key w
  create_missing-Leaves l create (err (failed s)) h key w = refl
  create_missing-Leaves l create panic h key w = refl

  pub ensure-Leaves :
      (k l : Kind)
      → IsStore C k
      → (key : ObjectKey) (o : Object k) → k ≢ l
      → Leaves C l (ensure C k key o)
  ensure-Leaves k l S key o n =
      Leaves-bind C l (attempt (read (C.get k key))) (create_missing C (C.create k o))
        (λ key' w. refl)
        (λ r. create_missing-Leaves l (C.create k o) r (λ key' w. S.get-create_other l o key' w n))

  kept :
      {A : Type 0} (k : Kind) (key : ObjectKey) (m : Action C.World A) (w : C.World)
      → Leaves C k m
      → Exists k key w
      → Exists k key (m w).1
  kept k key m w h (o, e) = (o, h key w ∙ e)

  -- On a client that reads its own writes, and whose reads fail for no other reason than that there is
  -- no such object, a run that succeeds leaves the service account, the role and the role binding of
  -- the cron job in the namespace, whichever of them it has found.
  pub create_bs_creator_rbac-Exists :
      IsStore C Kind.service_account
      → IsStore C Kind.role
      → IsStore C Kind.role_binding
      → ((k : Kind) (key : ObjectKey) (v : C.World) (s : String) → C.get k key v ≢ err (failed s))
      → (namespace : String) (w w' : C.World) → create_bs_creator_rbac C namespace w ≡ (ok tt, w')
      → Exists Kind.service_account (key_in namespace bs_creator_sa) w'
        × Exists Kind.role (key_in namespace bs_creator_role_name) w'
        × Exists Kind.role_binding (key_in namespace bs_creator_rolebinding_name) w'
  unfolding create_bs_creator_rbac
  create_bs_creator_rbac-Exists A R B readable namespace w w' h =
      let sa : ServiceAccount = record { metadata = named namespace bs_creator_sa } in
      let role = bs_creator_role namespace in
      let binding =
        account_binding namespace bs_creator_rolebinding_name bs_creator_sa bs_creator_role_name in
      let step = ensure C Kind.service_account (key_in namespace bs_creator_sa) sa in
      let step1 = ensure C Kind.role (key_in namespace bs_creator_role_name) role in
      let step2 =
        ensure C Kind.role_binding (key_in namespace bs_creator_rolebinding_name) binding in
      let w1 = (step w).1 in
      let w2 = (step1 w1).1 in
      let (u, e, h1) = bound step (λ _. step1 >> step2) w tt w' h in
      let (u1, e1, h2) = bound step1 (λ _. step2) w1 tt w' h1 in
      let a =
        ensure-Exists Kind.service_account A sa w w1
          (readable Kind.service_account (key_in namespace bs_creator_sa) w)
          (ap (λ r. (r, w1)) e) in
      let r =
        ensure-Exists Kind.role R role w1 w2
          (readable Kind.role (key_in namespace bs_creator_role_name) w1) (ap (λ r. (r, w2)) e1) in
      let b =
        ensure-Exists Kind.role_binding B binding w2 w'
          (readable Kind.role_binding (key_in namespace bs_creator_rolebinding_name) w2) h2 in
      let done = ap (λ p. p.1) h2 in
      let before = ensure-Leaves Kind.role Kind.service_account R in
      let last = ensure-Leaves Kind.role_binding in
      let role_key = key_in namespace bs_creator_role_name in
      let binding_key = key_in namespace bs_creator_rolebinding_name in
      (
        subst (Exists Kind.service_account (key_in namespace bs_creator_sa)) done (
            kept Kind.service_account (key_in namespace bs_creator_sa) step2 w2
              (last Kind.service_account B binding_key binding (λ i. ground arith))
              (kept Kind.service_account (key_in namespace bs_creator_sa) step1 w1
                (before role_key role (λ i. ground arith)) a)),
        subst (Exists Kind.role role_key) done (
            kept Kind.role role_key step2 w2
              (last Kind.role B binding_key binding (λ i. ground arith)) r),
        b,
      )

  -- Where all three reads fail with another error than that there is no such object, the function
  -- succeeds and creates nothing.
  pub create_bs_creator_rbac_unread :
      (namespace s s' s'' : String) (w : C.World)
      → C.get Kind.service_account (key_in namespace bs_creator_sa) w ≡ err (failed s)
      → C.get Kind.role (key_in namespace bs_creator_role_name) w ≡ err (failed s')
      → C.get Kind.role_binding (key_in namespace bs_creator_rolebinding_name) w ≡ err (failed s'')
      → create_bs_creator_rbac C namespace w ≡ (ok tt, w)
  unfolding create_bs_creator_rbac
  create_bs_creator_rbac_unread namespace s s' s'' w a r b = rw (a, r, b) refl
