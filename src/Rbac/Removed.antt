-- ===== src/Rbac/Removed.antt =====
-- What is left in the cluster of objects that are removed.
use formol.Prelude.{◌≡◌, ◌≢◌, refl, sym, ap, ◌∙◌, String, true, List, [], ◌∷◌, All, inl, inr, arith}
use mathlib.Core.Path.{subst}
use formol.Api.Meta.{ObjectKey}
use formol.Api.Objects.{Kind, Object}
use formol.Client.{Client}
use formol.Client.Store.{
  IsCluster, is_builtin, at_scope, key_in_kind, key-cases, kind-cases, delete-Keeps,
}
use formol.Outcome.{Result, ok, err, panic, not_found, failed, return, resume, caught}
use formol.Outcome.Laws.{bound}
use formol.Rbac.{remove, delete_rbac}
use formol.Rbac.Removal.{
  Reference, IsBuiltin, rbac_objects, rbac_objects-IsBuiltin, remove_all, remove_list,
}

module _ (C : Client) where
  abbrev pub Absent : C.World → Reference → Type 0
  Absent w p = C.get p.kind p.key w ≡ err not_found

  -- What is not in the cluster is not there after the action either.
  abbrev pub AddsNothing : C.World → C.World → Type 0
  AddsNothing w w' = (p : Reference) → IsBuiltin p → Absent w p → Absent w' p

  pub kept-Absent :
      (ps : List Reference) (w w' : C.World)
      → AddsNothing w w'
      → All IsBuiltin ps
      → All (Absent w) ps
      → All (Absent w') ps
  kept-Absent [] w w' adds b h = tt
  kept-Absent (p ∷ ps) w w' adds (b, bs) (h, hs) = (adds p b h, kept-Absent ps w w' adds bs hs)

module _ (C : Client) (L : IsCluster C)
    (readable : (k : Kind) (key : ObjectKey) (v : C.World) (s : String)
      → C.get k key v ≢ err (failed s))
    (delete_ok : (k : Kind) (key : ObjectKey) (o : Object k) (v : C.World)
      → is_builtin k ≡ true
      → C.get k key v ≡ ok o
      → (C.delete k o v).0 ≡ ok tt) where
  deleted_at :
      (k : Kind)
      → is_builtin k ≡ true
      → (o : Object k) (key : ObjectKey) (w : C.World) → (C.delete k o w).0 ≡ ok tt
      → at_scope k key ≡ key_in_kind k o
      → C.get k key (C.delete k o w).1 ≡ err not_found
  deleted_at k b o key w h same =
      let S = L.stores k b in
      sym (S.get-scope key (C.delete k o w).1)
      ∙ ap (λ j. C.get k j (C.delete k o w).1) same
      ∙ S.get-delete o w h

  -- A deletion that succeeds brings nothing back.
  delete-AddsNothing :
      (k : Kind)
      → is_builtin k ≡ true
      → (o : Object k) (w : C.World) → (C.delete k o w).0 ≡ ok tt
      → AddsNothing C w (C.delete k o w).1
  delete-AddsNothing k b o w h p q absent = elim (key-cases (at_scope k p.key) (key_in_kind k o)) [
    | inr n ↦ delete-Keeps C k (L.stores k b) p.kind o p.key n w ∙ absent
    | inl same ↦ elim (kind-cases k p.kind) [
      | inr d ↦ (L.stores k b).get-delete_other p.kind o p.key w d ∙ absent
      | inl e ↦
          subst (λ j. C.get j p.key (C.delete k o w).1 ≡ err not_found) e
            (deleted_at k b o p.key w h same)
    ]
  ]

  removed_found :
      (p : Reference) (w w' : C.World)
      → IsBuiltin p
      → (r : Result (Object p.kind)) → C.get p.kind p.key w ≡ r
      → (resume
          (λ _. return tt)
          (caught (resume (C.delete p.kind) r w).0)
          (resume (C.delete p.kind) r w).1)
        ≡ (ok tt, w')
      → Absent C w' p × AddsNothing C w w'
  removed_found p w w' b (ok o) e h =
      let done : (C.delete p.kind o w).0 ≡ ok tt = delete_ok p.kind p.key o w b e in
      let same = sym ((L.stores p.kind b).get-key p.key w o e) in
      subst (λ v. Absent C v p × AddsNothing C w v) (ap (λ r. r.1) (rw done at h))
        (deleted_at p.kind b o p.key w done same, delete-AddsNothing p.kind b o w done)
  removed_found p w w' b (err not_found) e h =
      subst (λ v. Absent C v p × AddsNothing C w v) (ap (λ r. r.1) h) (e, λ q c absent. absent)
  removed_found p w w' b (err (failed s)) e h = absurd (readable p.kind p.key w s e)
  removed_found p w w' b panic e h = absurd (ground arith)

  pub remove-Absent :
      (p : Reference) (w w' : C.World)
      → IsBuiltin p
      → remove C p.kind p.key w ≡ (ok tt, w')
      → Absent C w' p × AddsNothing C w w'
  remove-Absent p w w' b h = removed_found p w w' b (C.get p.kind p.key w) refl h

  remove_all-Absent :
      (p : Reference) (ps : List Reference) (w w' : C.World)
      → All IsBuiltin (p ∷ ps)
      → remove_all C p ps w ≡ (ok tt, w')
      → All (Absent C w') (p ∷ ps) × AddsNothing C w w'
  remove_all-Absent p [] w w' (b, _) h =
      let (gone, adds) = remove-Absent p w w' b h in ((gone, tt), adds)
  remove_all-Absent p (q ∷ rest) w w' (b, bs) h =
      let w1 = (remove C p.kind p.key w).1 in
      let (u, e, h1) = bound (remove C p.kind p.key) (λ _. remove_all C q rest) w tt w' h in
      let (gone, adds) = remove-Absent p w w1 b (ap (λ r. (r, w1)) e) in
      let (later, adds_on) = remove_all-Absent q rest w1 w' bs h1 in
      ((adds_on p b gone, later), λ r c absent. adds_on r c (adds r c absent))

  remove_list-Absent :
      (ps : List Reference) (w w' : C.World)
      → All IsBuiltin ps
      → remove_list C ps w ≡ (ok tt, w')
      → All (Absent C w') ps × AddsNothing C w w'
  remove_list-Absent [] w w' b h =
      (tt, subst (AddsNothing C w) (ap (λ r. r.1) h) (λ q c absent. absent))
  remove_list-Absent (p ∷ rest) w w' b h = remove_all-Absent p rest w w' b h

  -- After the removal of the RBAC objects of a namespace none of them is left, and nothing has come.
  pub delete_rbac-Absent :
      (namespace : String) (w w' : C.World)
      → delete_rbac C namespace w ≡ (ok tt, w')
      → All (Absent C w') (rbac_objects namespace) × AddsNothing C w w'
  unfolding delete_rbac
  delete_rbac-Absent namespace w w' h =
      remove_list-Absent (rbac_objects namespace) w w' (rbac_objects-IsBuiltin namespace) h
