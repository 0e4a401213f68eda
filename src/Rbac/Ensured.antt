-- ===== src/Rbac/Ensured.antt =====
-- An RBAC object that is created where the read does not find it.
use formol.Prelude.{◌≡◌, ◌≢◌, refl, sym, ap, ◌∙◌, String, ◌⊎◌, inl, inr, arith}
use formol.Api.Meta.{ObjectKey}
use formol.Api.Objects.{Kind, Object}
use formol.Client.{Client}
use formol.Client.Store.{IsStore, at_scope, key_in_kind, get-at}
use formol.Outcome.{Result, ok, err, panic, not_found, failed, resume, caught}
use formol.Rbac.{ensure, create_missing}

module _ (C : Client) where
  -- What is there after an object was ensured: what was found, or the object if none was.
  abbrev pub Ensured : (k : Kind) → ObjectKey → Object k → C.World → C.World → Type 0
  Ensured k key o w w' =
      (o' : Object k) × (C.get k key w' ≡ ok o')
      × ((C.get k key w ≡ ok o') ⊎ ((C.get k key w ≡ err not_found) × (o' ≡ o)))

  module _ (k : Kind) (S : IsStore C k) (key : ObjectKey) (o : Object k)
      (same : at_scope k key ≡ key_in_kind k o) (w w' : C.World) where
    create_missing-Ensured :
        (r : Result (Object k))
        → C.get k key w ≡ r
        → ((s : String) → r ≢ err (failed s))
        → resume (create_missing C (C.create k o)) (caught r) w ≡ (ok tt, w')
        → Ensured k key o w w'
    create_missing-Ensured (ok a) e readable h = (a, get-at C k refl (ap (λ p. p.1) h) e, inl e)
    create_missing-Ensured (err not_found) e readable h = (
      o,
      sym (S.get-scope key w')
          ∙ get-at C k (sym same) (ap (λ p. p.1) h) (S.get-create o w (ap (λ p. p.0) h)),
      inr (e, refl),
    )
    create_missing-Ensured (err (failed s)) e readable h = absurd (readable s refl)
    create_missing-Ensured panic e readable h = absurd (ground arith)

    pub ensure-Ensured :
        ((s : String) → C.get k key w ≢ err (failed s))
        → ensure C k key o w ≡ (ok tt, w')
        → Ensured k key o w w'
    ensure-Ensured readable h = create_missing-Ensured (C.get k key w) refl readable h
