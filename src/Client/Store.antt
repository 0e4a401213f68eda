-- ===== src/Client/Store.antt =====
-- Documented behaviour of the API server for a kind of objects, on a client that reads its own writes,
-- and what follows for sequences of actions.
use formol.Prelude.{
  Bool, true, false, ◌&&◌, ◌==◌, eq_iff, ◌⊎◌, inl, inr, Bool-cases, if◌then◌else◌, arith, ◌≡◌, ◌≢◌,
  refl, ◌∙◌,
}
use mathlib.Core.Path.{subst}
use formol.Outcome.{Result, ok, err, panic, not_found, Action, resume, ◌>>=◌}
use formol.Api.Meta.{ObjectKey, ObjectMeta, key_of}
use formol.Api.Objects.{Kind, Object}
use formol.Api.Config.{BackupConfiguration}
use formol.Client.Defs.{Client}
use formol.Client.Laws.{IsOwnerSetter}

abbrev pub meta_of : (k : Kind) → Object k → ObjectMeta
meta_of Kind.backup_session o = o.metadata
meta_of Kind.backup_configuration o = o.metadata
meta_of Kind.restore_session o = o.metadata
meta_of Kind.repo o = o.metadata
meta_of Kind.cron_job o = o.metadata
meta_of Kind.job o = o.metadata
meta_of Kind.deployment o = o.metadata
meta_of Kind.stateful_set o = o.metadata
meta_of Kind.service_account o = o.metadata
meta_of Kind.role o = o.metadata
meta_of Kind.role_binding o = o.metadata
meta_of Kind.cluster_role o = o.metadata
meta_of Kind.cluster_role_binding o = o.metadata

-- Cluster roles and their bindings have no namespace: one in the key of a request is passed over.
abbrev is_cluster_wide : Kind → Bool
is_cluster_wide Kind.cluster_role = true
is_cluster_wide Kind.cluster_role_binding = true
is_cluster_wide _ = false

abbrev pub at_scope : Kind → ObjectKey → ObjectKey
at_scope k key = if is_cluster_wide k then record { namespace = ""; name = key.name } else key

pub at_scope-name : (k : Kind) (key : ObjectKey) → (at_scope k key).name ≡ key.name
at_scope-name k key = elim (Bool-cases (is_cluster_wide k)) [
  | inl h ↦ rw h refl
  | inr h ↦ rw h refl
]

pub at_scope-twice : (k : Kind) (key : ObjectKey) → at_scope k (at_scope k key) ≡ at_scope k key
at_scope-twice k key = elim (Bool-cases (is_cluster_wide k)) [
  | inl h ↦ rw h refl
  | inr h ↦ rw h refl
]

abbrev pub key_in_kind : (k : Kind) → Object k → ObjectKey
key_in_kind k o = at_scope k (key_of (meta_of k o))

-- For a kind whose objects the API server stores as they are written, with no part of them left to
-- another endpoint: what is created or updated is read, what is deleted is not found, and objects of
-- other kinds are left alone.
pub record IsStore (C : Client) (k : Kind) : Type 0 where
  pub get-key :
      (key : ObjectKey) (w : C.World) (o : Object k)
      → C.get k key w ≡ ok o
      → key_in_kind k o ≡ at_scope k key
  pub get-scope : (key : ObjectKey) (w : C.World) → C.get k (at_scope k key) w ≡ C.get k key w
  pub get-create :
      (o : Object k) (w : C.World)
      → (C.create k o w).0 ≡ ok tt
      → C.get k (key_in_kind k o) (C.create k o w).1 ≡ ok o
  pub get-update :
      (o : Object k) (w : C.World)
      → (C.update k o w).0 ≡ ok tt
      → C.get k (key_in_kind k o) (C.update k o w).1 ≡ ok o
  pub get-delete :
      (o : Object k) (w : C.World)
      → (C.delete k o w).0 ≡ ok tt
      → C.get k (key_in_kind k o) (C.delete k o w).1 ≡ err not_found
  pub get-create_other :
      (l : Kind) (o : Object k) (key : ObjectKey) (w : C.World)
      → k ≢ l
      → C.get l key (C.create k o w).1 ≡ C.get l key w
  pub get-create_elsewhere :
      (o : Object k) (key : ObjectKey) (w : C.World)
      → at_scope k key ≢ key_in_kind k o
      → C.get k key (C.create k o w).1 ≡ C.get k key w
  pub get-update_other :
      (l : Kind) (o : Object k) (key : ObjectKey) (w : C.World)
      → k ≢ l
      → C.get l key (C.update k o w).1 ≡ C.get l key w
  pub get-update_elsewhere :
      (o : Object k) (key : ObjectKey) (w : C.World)
      → at_scope k key ≢ key_in_kind k o
      → C.get k key (C.update k o w).1 ≡ C.get k key w
  pub get-delete_other :
      (l : Kind) (o : Object k) (key : ObjectKey) (w : C.World)
      → k ≢ l
      → C.get l key (C.delete k o w).1 ≡ C.get l key w
  pub get-delete_elsewhere :
      (o : Object k) (key : ObjectKey) (w : C.World)
      → at_scope k key ≢ key_in_kind k o
      → C.get k key (C.delete k o w).1 ≡ C.get k key w

-- The kinds of Kubernetes itself, not of this program.
abbrev pub is_builtin : Kind → Bool
is_builtin Kind.backup_session = false
is_builtin Kind.backup_configuration = false
is_builtin Kind.restore_session = false
is_builtin Kind.repo = false
is_builtin _ = true

-- A cluster in which nobody else writes during a run: it stores the objects of the kinds of Kubernetes
-- itself, and leaves them alone where a configuration or its status is updated.
pub record IsCluster (C : Client) : Type 0 where
  pub stores : (k : Kind) → is_builtin k ≡ true → IsStore C k
  pub owner : IsOwnerSetter C
  pub get-update_status :
      (conf : BackupConfiguration) (l : Kind) (key : ObjectKey) (w : C.World)
      → is_builtin l ≡ true
      → C.get l key (C.update_status Kind.backup_configuration conf w).1 ≡ C.get l key w
  pub get-update_conf :
      (conf : BackupConfiguration) (l : Kind) (key : ObjectKey) (w : C.World)
      → is_builtin l ≡ true
      → C.get l key (C.update Kind.backup_configuration conf w).1 ≡ C.get l key w

pub key-cases : (a b : ObjectKey) → (a ≡ b) ⊎ (a ≢ b)
key-cases a b = elim (Bool-cases ((a.namespace == b.namespace) && (a.name == b.name))) [
  | inl h ↦ inl (ground (arith, eq_iff a.namespace b.namespace, eq_iff a.name b.name))
  | inr h ↦ inr (λ e. ground (arith, eq_iff a.namespace b.namespace, eq_iff a.name b.name))
]

module _ (C : Client) (l : Kind) where
  -- A read, at another key and in another state that are the same.
  pub get-at :
      {key key' : ObjectKey} {w w' : C.World} {r : Result (Object l)}
      → key ≡ key'
      → w ≡ w'
      → C.get l key w ≡ r
      → C.get l key' w' ≡ r
  get-at e f h = rw (← e, ← f) h

  -- An action that leaves what is read of a kind, under one key and under all keys.
  abbrev pub Keeps : {A : Type 0} → ObjectKey → Action C.World A → Type 0
  Keeps key m = (w : C.World) → C.get l key (m w).1 ≡ C.get l key w

  abbrev pub Leaves : {A : Type 0} → Action C.World A → Type 0
  Leaves m = (key : ObjectKey) → Keeps key m

  pub Keeps-resume :
      {A B : Type 0} (f : A → Action C.World B) (r : Result A) (key : ObjectKey) (w : C.World)
      → ((a : A) → Keeps key (f a))
      → C.get l key (resume f r w).1 ≡ C.get l key w
  Keeps-resume f (ok a) key w h = h a w
  Keeps-resume f (err e) key w h = refl
  Keeps-resume f panic key w h = refl

  pub Keeps-bind :
      {A B : Type 0} (key : ObjectKey) (m : Action C.World A) (f : A → Action C.World B)
      → Keeps key m
      → ((a : A) → Keeps key (f a))
      → Keeps key (m >>= f)
  Keeps-bind key m f hm hf w = Keeps-resume f (m w).0 key (m w).1 hf ∙ hm w

  pub Leaves-bind :
      {A B : Type 0} (m : Action C.World A) (f : A → Action C.World B)
      → Leaves m
      → ((a : A) → Leaves (f a))
      → Leaves (m >>= f)
  Leaves-bind m f hm hf key = Keeps-bind key m f (hm key) (λ a. hf a key)

-- Kinds are told apart.
pub kind-cases : (k l : Kind) → (k ≡ l) ⊎ (k ≢ l)
kind-cases Kind.backup_session Kind.backup_session = inl refl
kind-cases Kind.backup_configuration Kind.backup_configuration = inl refl
kind-cases Kind.restore_session Kind.restore_session = inl refl
kind-cases Kind.repo Kind.repo = inl refl
kind-cases Kind.cron_job Kind.cron_job = inl refl
kind-cases Kind.job Kind.job = inl refl
kind-cases Kind.deployment Kind.deployment = inl refl
kind-cases Kind.stateful_set Kind.stateful_set = inl refl
kind-cases Kind.service_account Kind.service_account = inl refl
kind-cases Kind.role Kind.role = inl refl
kind-cases Kind.role_binding Kind.role_binding = inl refl
kind-cases Kind.cluster_role Kind.cluster_role = inl refl
kind-cases Kind.cluster_role_binding Kind.cluster_role_binding = inl refl
kind-cases _ _ = inr (λ e. ground arith)

module _ (C : Client) (k : Kind) (S : IsStore C k) where
  -- A write to an object leaves what is read under another key, of whatever kind.
  pub create-Keeps :
      (l : Kind) (o : Object k) (key : ObjectKey)
      → at_scope k key ≢ key_in_kind k o
      → Keeps C l key (C.create k o)
  create-Keeps l o key n w = elim (kind-cases k l) [
    | inl e ↦
        subst (λ j. C.get j key (C.create k o w).1 ≡ C.get j key w) e
          (S.get-create_elsewhere o key w n)
    | inr d ↦ S.get-create_other l o key w d
  ]

  pub update-Keeps :
      (l : Kind) (o : Object k) (key : ObjectKey)
      → at_scope k key ≢ key_in_kind k o
      → Keeps C l key (C.update k o)
  update-Keeps l o key n w = elim (kind-cases k l) [
    | inl e ↦
        subst (λ j. C.get j key (C.update k o w).1 ≡ C.get j key w) e
          (S.get-update_elsewhere o key w n)
    | inr d ↦ S.get-update_other l o key w d
  ]

  pub delete-Keeps :
      (l : Kind) (o : Object k) (key : ObjectKey)
      → at_scope k key ≢ key_in_kind k o
      → Keeps C l key (C.delete k o)
  delete-Keeps l o key n w = elim (kind-cases k l) [
    | inl e ↦
        subst (λ j. C.get j key (C.delete k o w).1 ≡ C.get j key w) e
          (S.get-delete_elsewhere o key w n)
    | inr d ↦ S.get-delete_other l o key w d
  ]
