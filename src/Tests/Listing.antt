-- ===== src/Tests/Listing.antt =====
-- A sort by the start times, and the retention rules on two listings of the same sessions.
use formol.Prelude.{◌≡◌, refl, Bool-cases, inl, inr, false, List, [], ◌∷◌, All, some, arith}
use mathlib.Core.Path.{subst}
use mathlib.Core.List.{Permᴰ}
use mathlib.Core.List.Permᴰ
use formol.Api.Session.{success, BackupSession}
use formol.Outcome.{Result, ok}
use formol.Retention.{Dated, dated, cleanup_listed}
use formol.Retention.Order.{is_newer, AllApart, IsNewestFirst, put_in, arrange, cleanup_listed-perm}
use formol.Tests.Samples.{two, session_of, memory, holding}
use formol.Tests.Keeping.{january}
use formol.Tests.Reconciling.{fresh}

All-put_in :
    (P : Dated → Type 0) (d : Dated) (ds : List Dated) → P d → All P ds → All P (put_in d ds)
unfolding put_in
All-put_in P d [] p h = (p, tt)
All-put_in P d (e ∷ rest) p h = elim (Bool-cases (is_newer e d)) [
  | inl n ↦ rw n (h.0, All-put_in P d rest p h.1)
  | inr n ↦ rw n (p, h)
]

older :
    (d e : Dated) (ds : List Dated)
    → is_newer e d ≡ false
    → All (λ x. is_newer x e ≡ false) ds
    → All (λ x. is_newer x d ≡ false) ds
older d e [] n h = tt
older d e (x ∷ rest) n h = (ground (arith, h.0), older d e rest n h.1)

put_in-IsNewestFirst :
    (d : Dated) (ds : List Dated) → IsNewestFirst ds → IsNewestFirst (put_in d ds)
unfolding put_in
put_in-IsNewestFirst d [] h = (tt, tt)
put_in-IsNewestFirst d (e ∷ rest) h = elim (Bool-cases (is_newer e d)) [
  | inl n ↦ rw n (
    All-put_in (λ x. is_newer x e ≡ false) d rest (ground arith) h.0,
    put_in-IsNewestFirst d rest h.1,
  )
  | inr n ↦ rw n ((n, older d e rest n h.0), h)
]

arrange-IsNewestFirst : (ds : List Dated) → IsNewestFirst (arrange ds)
unfolding arrange
arrange-IsNewestFirst [] = tt
arrange-IsNewestFirst (d ∷ rest) =
    put_in-IsNewestFirst d (arrange rest) (arrange-IsNewestFirst rest)

put_in-perm : (d : Dated) (ds : List Dated) → Permᴰ (put_in d ds) (d ∷ ds)
unfolding put_in
put_in-perm d [] = Permᴰ.refl (d ∷ [])
put_in-perm d (e ∷ rest) = elim (Bool-cases (is_newer e d)) [
  | inl n ↦ rw n (Permᴰ.trans (Permᴰ.cons refl (put_in-perm d rest)) (Permᴰ.swap refl refl))
  | inr n ↦ rw n (Permᴰ.refl (d ∷ e ∷ rest))
]

arrange-perm : (ds : List Dated) → Permᴰ (arrange ds) ds
unfolding arrange
arrange-perm [] = Permᴰ.nil
arrange-perm (d ∷ rest) =
    Permᴰ.trans (put_in-perm d (arrange rest)) (Permᴰ.cons refl (arrange-perm rest))

abbrev first : BackupSession
first =
    let s = session_of success [] in
    record s { status = record s.status { start_time = some (january 1) } }

abbrev second : BackupSession
second =
    let s = session_of success [] in
    record s { status = record s.status { start_time = some (january 2) } }

abbrev both : List Dated
both =
    record { session = first; time = january 1 }
    ∷ record { session = second; time = january 2 }
    ∷ []

read_both : (ds : List Dated) → ◌≡◌ {A = Result (List Dated)} (ok both) (ok ds) → both ≡ ds
read_both ds h = ground arith

apart : (ds : List Dated) → dated (first ∷ second ∷ []) ≡ ok ds → AllApart ds
unfolding dated
apart ds h = subst AllApart (read_both ds h) ((λ e. ground arith, tt), (tt, tt))

cleanup_listed-perm_example :
    cleanup_listed memory arrange two (first ∷ second ∷ []) (holding fresh two)
    ≡ cleanup_listed memory arrange two (second ∷ first ∷ []) (holding fresh two)
cleanup_listed-perm_example =
    cleanup_listed-perm memory arrange arrange-IsNewestFirst arrange-perm two (first ∷ second ∷ [])
      (second ∷ first ∷ []) (holding fresh two) (Permᴰ.swap refl refl) apart
