-- ===== src/Tests/Registering.antt =====
-- A registry in memory: a scheme is the list of the builders that were added to it.
use formol.Prelude.{◌≡◌, refl, true, false, List, [], ◌∷◌, ◌++◌, ◌⊎◌, inl, inr, arith}
use mathlib.Core.List.{Memᴰ}
use formol.Api.Types.{ApiType, repo_type, GroupVersion, group_version, Registry, scheme_builder}
use formol.Outcome.{Result, ok, err, panic}
use formol.Manager.Scheme.{IsRegistry, init, init-recognizes}

record Builder : Type 0 where
  version : GroupVersion
  types : List ApiType

abbrev Recognised : List Builder → GroupVersion → ApiType → Type 0
Recognised [] v t = false ≡ true
Recognised (b ∷ s) v t = ((b.version ≡ v) × Memᴰ t b.types) ⊎ Recognised s v t

abbrev checked : Result (Unit {0}) → List Builder → Result (Unit {0}) × List Builder
checked (ok _) s = (ok tt, s)
checked _ s = (panic, s)

checked-ok :
    (r : Result (Unit {0})) (w s' : List Builder)
    → ◌≡◌ {A = Result (Unit {0}) × List Builder} (checked r w) (ok tt, s')
    → ◌≡◌ {A = Result (Unit {0}) × List Builder} (r, w) (ok tt, s')
checked-ok (ok _) w s' h = h
checked-ok (err e) w s' h = absurd (ground arith)
checked-ok panic w s' h = absurd (ground arith)

abbrev registry : Registry
registry = record {
  Scheme = List Builder;
  Builder = Builder;
  new_scheme = [];
  new_builder = λ v. record { version = v; types = [] };
  register = λ ts b. record b { types = ts ++ b.types };
  add_to_scheme = λ b s. (ok tt, b ∷ s);
  client_go_add_to_scheme = λ s. (ok tt, s);
  must = λ m s. checked (m s).0 (m s).1;
  recognizes = Recognised;
}

in_left : (t : ApiType) (ts us : List ApiType) → Memᴰ t ts → Memᴰ t (ts ++ us)
in_left t [] us m = elim m [ ]
in_left t (u ∷ ts) us (Memᴰ.head e) = Memᴰ.head e
in_left t (u ∷ ts) us (Memᴰ.tail m) = Memᴰ.tail (in_left t ts us m)

in_right : (t : ApiType) (ts us : List ApiType) → Memᴰ t us → Memᴰ t (ts ++ us)
in_right t [] us m = m
in_right t (u ∷ ts) us m = Memᴰ.tail (in_right t ts us m)

still-Recognised :
    (t : ApiType) (v : GroupVersion) (ts : List ApiType) (b : Builder) (s : List Builder)
    → Recognised (b ∷ s) v t
    → Recognised (record b { types = ts ++ b.types } ∷ s) v t
still-Recognised t v ts b s (inl (e, m)) = inl (e, in_right t ts b.types m)
still-Recognised t v ts b s (inr h) = inr h

registry-IsRegistry : IsRegistry registry
registry-IsRegistry = record {
  version_of = λ b. b.version;
  version_of-new = λ v. refl;
  version_of-register = λ ts b. refl;
  must-ok = λ m s s' h. checked-ok (m s).0 (m s).1 s' h;
  register-Adds = λ t ts b m s h. inl (refl, in_left t ts b.types m);
  register-keeps = λ t v ts b h s e. still-Recognised t v ts b s (h s e);
}

abbrev scheme : List Builder
scheme = (init registry []).1

started : init registry [] ≡ (ok tt, scheme)
unfolding init scheme_builder
started = refl

init-recognizes_example : Recognised scheme group_version repo_type
init-recognizes_example = init-recognizes registry registry-IsRegistry [] scheme repo_type started
