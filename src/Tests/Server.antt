-- ===== src/Tests/Server.antt =====
-- A client over a cluster that keeps a list of the objects of each kind, and reads its own writes.
use formol.Prelude.{
  ◌≡◌, ◌≢◌, refl, ap, ◌∙◌, String, Bool-cases, inl, inr, true, false, not, eq_iff, List, [], ◌∷◌,
  keep_if, if◌then◌else◌, arith,
}
use formol.Api.Meta.{ObjectKey, key_of, zero_time}
use formol.Api.Objects.{Kind, Object, CronJob}
use formol.Outcome.{Result, ok, err, not_found, failed}
use formol.Client.{Client}
use formol.Client.Laws.{IsOwnerSetter}
use formol.Client.Store.{
  IsStore, IsCluster, is_builtin, meta_of, key_in_kind, at_scope, at_scope-twice,
}
use formol.Tests.Samples.{memory, same_key}

abbrev pub Objects : Type 0
Objects = (k : Kind) → List (Object k)

abbrev pub put : (k : Kind) → List (Object k) → Objects → Objects
put Kind.backup_session os w Kind.backup_session = os
put Kind.backup_configuration os w Kind.backup_configuration = os
put Kind.restore_session os w Kind.restore_session = os
put Kind.repo os w Kind.repo = os
put Kind.cron_job os w Kind.cron_job = os
put Kind.job os w Kind.job = os
put Kind.deployment os w Kind.deployment = os
put Kind.stateful_set os w Kind.stateful_set = os
put Kind.service_account os w Kind.service_account = os
put Kind.role os w Kind.role = os
put Kind.role_binding os w Kind.role_binding = os
put Kind.cluster_role os w Kind.cluster_role = os
put Kind.cluster_role_binding os w Kind.cluster_role_binding = os
put _ os w l = w l

module _ {A : Type 0} (own : A → ObjectKey) where
  abbrev pub find : List A → ObjectKey → Result A
  find [] key = err not_found
  find (a ∷ rest) key = let later = find rest key in if same_key (own a) key then ok a else later

  abbrev pub without : ObjectKey → List A → List A
  without key = keep_if (λ a. not (same_key (own a) key))

abbrev pub server_put : (k : Kind) → Object k → Objects → Result (Unit {0}) × Objects
server_put k o w = (ok tt, put k (o ∷ without (key_in_kind k) (key_in_kind k o) (w k)) w)

abbrev pub server_delete : (k : Kind) → Object k → Objects → Result (Unit {0}) × Objects
server_delete k o w = (ok tt, put k (without (key_in_kind k) (key_in_kind k o) (w k)) w)

abbrev pub server : Client
server = record memory {
  World = Objects;
  get = λ k key w. find (key_in_kind k) (w k) (at_scope k key);
  create = server_put;
  update = server_put;
  update_status = server_put;
  delete = server_delete;
  get_nil = λ key w. err not_found;
  list_backup_sessions = λ namespace state w. err not_found;
  clock = λ w i. zero_time;
}

put_there : (k : Kind) (os : List (Object k)) (w : Objects) → put k os w k ≡ os
put_there Kind.backup_session os w = refl
put_there Kind.backup_configuration os w = refl
put_there Kind.restore_session os w = refl
put_there Kind.repo os w = refl
put_there Kind.cron_job os w = refl
put_there Kind.job os w = refl
put_there Kind.deployment os w = refl
put_there Kind.stateful_set os w = refl
put_there Kind.service_account os w = refl
put_there Kind.role os w = refl
put_there Kind.role_binding os w = refl
put_there Kind.cluster_role os w = refl
put_there Kind.cluster_role_binding os w = refl

put_elsewhere : (k l : Kind) (os : List (Object k)) (w : Objects) → k ≢ l → put k os w l ≡ w l
put_elsewhere Kind.backup_session Kind.backup_session os w n = absurd (n refl)
put_elsewhere Kind.backup_configuration Kind.backup_configuration os w n = absurd (n refl)
put_elsewhere Kind.restore_session Kind.restore_session os w n = absurd (n refl)
put_elsewhere Kind.repo Kind.repo os w n = absurd (n refl)
put_elsewhere Kind.cron_job Kind.cron_job os w n = absurd (n refl)
put_elsewhere Kind.job Kind.job os w n = absurd (n refl)
put_elsewhere Kind.deployment Kind.deployment os w n = absurd (n refl)
put_elsewhere Kind.stateful_set Kind.stateful_set os w n = absurd (n refl)
put_elsewhere Kind.service_account Kind.service_account os w n = absurd (n refl)
put_elsewhere Kind.role Kind.role os w n = absurd (n refl)
put_elsewhere Kind.role_binding Kind.role_binding os w n = absurd (n refl)
put_elsewhere Kind.cluster_role Kind.cluster_role os w n = absurd (n refl)
put_elsewhere Kind.cluster_role_binding Kind.cluster_role_binding os w n = absurd (n refl)
put_elsewhere _ _ os w n = refl

same_key_eq : (a b : ObjectKey) → same_key a b ≡ true → a ≡ b
same_key_eq a b h = ground (arith, eq_iff a.namespace b.namespace, eq_iff a.name b.name)

same_key_refl : (a : ObjectKey) → same_key a a ≡ true
same_key_refl a = ground (arith, eq_iff a.namespace a.namespace, eq_iff a.name a.name)

module _ {A : Type 0} (own : A → ObjectKey) where
  pub find-key : (os : List A) (key : ObjectKey) (a : A) → find own os key ≡ ok a → own a ≡ key
  find-key [] key a h = cc h
  find-key (o ∷ rest) key a h = ground (arith, same_key_eq (own o) key, find-key rest key a)

  pub find-own : (o : A) (rest : List A) → find own (o ∷ rest) (own o) ≡ ok o
  find-own o rest = rw (same_key_refl (own o)) refl

  pub find-without :
      (os : List A) (key : ObjectKey) → find own (without own key os) key ≡ err not_found
  find-without [] key = refl
  find-without (o ∷ rest) key = elim (Bool-cases (same_key (own o) key)) [
    | inl h ↦ rw h (find-without rest key)
    | inr h ↦ rw (h, h) (find-without rest key)
  ]

  pub find-without_other :
      (os : List A) (key gone : ObjectKey)
      → key ≢ gone
      → find own (without own gone os) key ≡ find own os key
  find-without_other [] key gone n = refl
  find-without_other (o ∷ rest) key gone n = elim (Bool-cases (same_key (own o) gone)) [
    | inl h ↦
        let other : same_key (own o) key ≡ false =
          ground (arith, same_key_eq (own o) gone, same_key_eq (own o) key) in
        rw (h, other) (find-without_other rest key gone n)
    | inr h ↦ elim (Bool-cases (same_key (own o) key)) [
      | inl e ↦ rw (h, e) refl
      | inr e ↦ rw (h, e) (find-without_other rest key gone n)
    ]
  ]

  pub find-put_other :
      (o : A) (os : List A) (key : ObjectKey)
      → key ≢ own o
      → find own (o ∷ without own (own o) os) key ≡ find own os key
  find-put_other o os key n =
      let other : same_key (own o) key ≡ false = ground (arith, same_key_eq (own o) key) in
      rw other (find-without_other os key (own o) n)

  find-readable : (os : List A) (key : ObjectKey) (s : String) → find own os key ≢ err (failed s)
  find-readable [] key s h = absurd (ground arith)
  find-readable (o ∷ rest) key s h = absurd (ground (arith, find-readable rest key s))

pub server-IsStore : (k : Kind) → IsStore server k
server-IsStore k =
    let read = λ (l : Kind) (key : ObjectKey) (os : List (Object l)).
      find (key_in_kind l) os (at_scope l key) in
    let own = λ (o : Object k) (os : List (Object k)).
      ap (find (key_in_kind k) os) (at_scope-twice k (key_of (meta_of k o))) in
    let left = λ (o : Object k) (w : Objects). without (key_in_kind k) (key_in_kind k o) (w k) in
    record {
      get-key = λ key w o h. find-key (key_in_kind k) (w k) (at_scope k key) o h;
      get-scope = λ key w. ap (find (key_in_kind k) (w k)) (at_scope-twice k key);
      get-create = λ o w h.
          ap (read k _) (put_there k _ w)
          ∙ own o (o ∷ left o w)
          ∙ find-own (key_in_kind k) o (left o w);
      get-update = λ o w h.
          ap (read k _) (put_there k _ w)
          ∙ own o (o ∷ left o w)
          ∙ find-own (key_in_kind k) o (left o w);
      get-delete = λ o w h.
          ap (read k _) (put_there k _ w) ∙ own o (left o w) ∙ find-without (key_in_kind k) (w k) _;
      get-create_other = λ l o key w n. ap (read l key) (put_elsewhere k l _ w n);
      get-create_elsewhere = λ o key w n.
          ap (read k key) (put_there k _ w)
          ∙ find-put_other (key_in_kind k) o (w k) (at_scope k key) n;
      get-update_other = λ l o key w n. ap (read l key) (put_elsewhere k l _ w n);
      get-update_elsewhere = λ o key w n.
          ap (read k key) (put_there k _ w)
          ∙ find-put_other (key_in_kind k) o (w k) (at_scope k key) n;
      get-delete_other = λ l o key w n. ap (read l key) (put_elsewhere k l _ w n);
      get-delete_elsewhere = λ o key w n.
          ap (read k key) (put_there k _ w)
          ∙ find-without_other (key_in_kind k) (w k) (at_scope k key) (key_in_kind k o) n;
    }

pub server-readable :
    (k : Kind) (key : ObjectKey) (w : Objects) (s : String) → server.get k key w ≢ err (failed s)
server-readable k key w s = find-readable (key_in_kind k) (w k) (at_scope k key) s

same_owned :
    (job job' : CronJob)
    → ◌≡◌ {A = Result CronJob} (ok job) (ok job')
    → job' ≡ record job {
      metadata = record job.metadata { owner_references = job'.metadata.owner_references };
    }
same_owned job job' h = let e : job ≡ job' = ground arith in rw (← e) refl

pub server-IsOwnerSetter : IsOwnerSetter server
server-IsOwnerSetter = record { owned = λ conf job job' h. same_owned job job' h }

conf_apart : (l : Kind) → is_builtin l ≡ true → Kind.backup_configuration ≢ l
conf_apart l h e =
    let f : is_builtin Kind.backup_configuration ≡ is_builtin l = ap is_builtin e in
    ground (arith, f)

pub server-IsCluster : IsCluster server
server-IsCluster = record {
  stores = λ k h. server-IsStore k;
  owner = server-IsOwnerSetter;
  get-update_status = λ conf l key w h.
      ap (λ (os : List (Object l)). find (key_in_kind l) os (at_scope l key))
        (put_elsewhere Kind.backup_configuration l _ w (conf_apart l h));
  get-update_conf = λ conf l key w h.
      ap (λ (os : List (Object l)). find (key_in_kind l) os (at_scope l key))
        (put_elsewhere Kind.backup_configuration l _ w (conf_apart l h));
}

pub server-delete_ok : (k : Kind) (o : Object k) (w : Objects) → (server.delete k o w).0 ≡ ok tt
server-delete_ok k o w = refl
