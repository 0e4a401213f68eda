-- ===== src/Retention/Order.antt =====
-- The order in which the API server lists the sessions, before `cleanupSessions` sorts them.
use formol.Prelude.{
  ◌≡◌, ◌≢◌, refl, sym, ap, ◌∙◌, ltb_ℤ, pos_part, neg_part, ◌+◌, Bool, false, List, [], ◌∷◌, All,
  length, ltb, suc, Option, none, some, Bool-cases, inl, inr, if◌then◌else◌, arith,
}
use mathlib.Core.List.{Permᴰ}
use mathlib.Core.List.Permᴰ
use mathlib.Core.Path.{subst}
use formol.Api.Config.{BackupConfiguration}
use formol.Client.{Client}
use formol.Outcome.{Result, ok, panic, lift, ◌>>=◌}
use formol.Api.Meta.{Time}
use formol.Api.Session.{BackupSession}
use formol.Retention.{Dated, date, dated, buckets_of, cleanup_loop, cleanup_listed}

-- The comparison of the sort.
abbrev pub is_newer : Dated → Dated → Bool
is_newer a b = ltb_ℤ b.time.unix a.time.unix

-- One of the two is newer.
abbrev pub AreApart : Dated → Dated → Type 0
AreApart a b =
    pos_part a.time.unix + neg_part b.time.unix ≢ pos_part b.time.unix + neg_part a.time.unix

abbrev pub AllApart : List Dated → Type 0
AllApart [] = Unit
AllApart (d ∷ rest) = All (AreApart d) rest × AllApart rest

-- What a sort by the comparison leaves: none is newer than one before it.
abbrev pub IsNewestFirst : List Dated → Type 0
IsNewestFirst [] = Unit
IsNewestFirst (d ∷ rest) = All (λ e. is_newer e d ≡ false) rest × IsNewestFirst rest

unfoldable pub put_in : Dated → List Dated → List Dated
put_in d [] = d ∷ []
put_in d (e ∷ rest) = let later = put_in d rest in if is_newer e d then e ∷ later else d ∷ e ∷ rest

unfoldable pub arrange : List Dated → List Dated
arrange [] = []
arrange (d ∷ rest) = put_in d (arrange rest)

put_in-first :
    (d : Dated) (ds : List Dated) → All (λ e. is_newer e d ≡ false) ds → put_in d ds ≡ d ∷ ds
unfolding put_in
put_in-first d [] h = refl
put_in-first d (e ∷ rest) h = rw h.0

arrange_of_IsNewestFirst : (ds : List Dated) → IsNewestFirst ds → arrange ds ≡ ds
unfolding arrange
arrange_of_IsNewestFirst [] h = refl
arrange_of_IsNewestFirst (d ∷ rest) h =
    rw (arrange_of_IsNewestFirst rest h.1) (put_in-first d rest h.0)

put_in_comm :
    (a b : Dated) (ds : List Dated) → AreApart a b → put_in a (put_in b ds) ≡ put_in b (put_in a ds)
unfolding put_in
put_in_comm a b [] n = ground arith
put_in_comm a b (e ∷ rest) n = ground (arith, put_in_comm a b rest n)

AreApart-sym : (a b : Dated) → AreApart a b → AreApart b a
AreApart-sym a b n e = n (sym e)

All-perm : (P : Dated → Type 0) {ds es : List Dated} → Permᴰ ds es → All P ds → All P es
All-perm P Permᴰ.nil h = tt
All-perm P (Permᴰ.cons e p) h = (subst P e h.0, All-perm P p h.1)
All-perm P (Permᴰ.swap e f) (a, (b, h)) = (subst P f b, (subst P e a, h))
All-perm P (Permᴰ.trans p q) h = All-perm P q (All-perm P p h)

AllApart-perm : {ds es : List Dated} → Permᴰ ds es → AllApart ds → AllApart es
AllApart-perm Permᴰ.nil h = tt
AllApart-perm (Permᴰ.cons {b = b} {l₂ = l} e p) h =
    (subst (λ d. All (AreApart d) l) e (All-perm _ p h.0), AllApart-perm p h.1)
AllApart-perm (Permᴰ.swap {a = a} {b = b} {b' = b'} {l = l} e f) ((n, na), (nb, h)) =
    subst (λ x. AllApart (x ∷ b' ∷ l)) f
      (subst (λ y. AllApart (b ∷ y ∷ l)) e ((AreApart-sym a b n, nb), (na, h)))
AllApart-perm (Permᴰ.trans p q) h = AllApart-perm q (AllApart-perm p h)

arrange-eq_of_perm : {ds es : List Dated} → Permᴰ ds es → AllApart ds → arrange ds ≡ arrange es
unfolding arrange
arrange-eq_of_perm Permᴰ.nil h = refl
arrange-eq_of_perm (Permᴰ.cons {b = b} e p) h = rw (e, arrange-eq_of_perm p h.1) refl
arrange-eq_of_perm (Permᴰ.swap {a = a} {b = b} {l = l} e f) h =
    rw (← e, ← f) (put_in_comm a b (arrange l) h.0.0)
arrange-eq_of_perm (Permᴰ.trans p q) h =
    arrange-eq_of_perm p h ∙ arrange-eq_of_perm q (AllApart-perm p h)

-- Two lists of the same sessions that are both sorted are the same list.
pub IsNewestFirst-perm :
    {ds es : List Dated} → IsNewestFirst ds → IsNewestFirst es → Permᴰ ds es → AllApart ds → ds ≡ es
IsNewestFirst-perm {ds} {es} s t p h =
    sym (arrange_of_IsNewestFirst ds s) ∙ arrange-eq_of_perm p h ∙ arrange_of_IsNewestFirst es t

-- The same sessions, or a panic for both.
data SameDated : Result (List Dated) → Result (List Dated) → Type 0 where
  read : {ds es : List Dated} → Permᴰ ds es → SameDated (ok ds) (ok es)
  panics : SameDated panic panic

SameDated-trans : {r s t : Result (List Dated)} → SameDated r s → SameDated s t → SameDated r t
SameDated-trans (read p) (read q) = read (Permᴰ.trans p q)
SameDated-trans panics panics = panics

date-SameDated :
    (s : BackupSession) (t : Option Time) {q r : Result (List Dated)}
    → SameDated q r
    → SameDated (date s t q) (date s t r)
date-SameDated s none p = panics
date-SameDated s (some t) (read p) = read (Permᴰ.cons refl p)
date-SameDated s (some t) panics = panics

date_comm :
    (s t : BackupSession) (i j : Option Time) {r : Result (List Dated)}
    → SameDated r r
    → SameDated (date s i (date t j r)) (date t j (date s i r))
date_comm s t none none p = panics
date_comm s t none (some j) (read p) = panics
date_comm s t none (some j) panics = panics
date_comm s t (some i) none p = panics
date_comm s t (some i) (some j) (read p) = read (Permᴰ.swap refl refl)
date_comm s t (some i) (some j) panics = panics

dated-itself : (ss : List BackupSession) → SameDated (dated ss) (dated ss)
unfolding dated
dated-itself [] = read Permᴰ.nil
dated-itself (s ∷ rest) = date-SameDated s s.status.start_time (dated-itself rest)

dated-perm : {ss ts : List BackupSession} → Permᴰ ss ts → SameDated (dated ss) (dated ts)
unfolding dated
dated-perm Permᴰ.nil = read Permᴰ.nil
dated-perm (Permᴰ.cons {a = a} {l₂ = l} e p) =
    rw (← e) (date-SameDated a a.status.start_time (dated-perm p))
dated-perm (Permᴰ.swap {a = a} {b = b} {l = l} e f) =
    rw (← e, ← f) (date_comm a b a.status.start_time b.status.start_time (dated-itself l))
dated-perm (Permᴰ.trans p q) = SameDated-trans (dated-perm p) (dated-perm q)

length-perm : {ss ts : List BackupSession} → Permᴰ ss ts → length ss ≡ length ts
length-perm Permᴰ.nil = refl
length-perm (Permᴰ.cons e p) = ap suc (length-perm p)
length-perm (Permᴰ.swap e f) = refl
length-perm (Permᴰ.trans p q) = length-perm p ∙ length-perm q

module _ (C : Client) (newest_first : List Dated → List Dated)
    (sorted : (ds : List Dated) → IsNewestFirst (newest_first ds))
    (permuted : (ds : List Dated) → Permᴰ (newest_first ds) ds) where
  newest_first-perm :
      {ds es : List Dated} → Permᴰ ds es → AllApart ds → newest_first ds ≡ newest_first es
  newest_first-perm {ds} {es} p h =
      IsNewestFirst-perm (sorted ds) (sorted es)
        (Permᴰ.trans (permuted ds) (Permᴰ.trans p (Permᴰ.symm (permuted es))))
        (AllApart-perm (Permᴰ.symm (permuted ds)) h)

  looped :
      (conf : BackupConfiguration) (w : C.World) {q r : Result (List Dated)}
      → SameDated q r
      → ((ds : List Dated) → q ≡ ok ds → AllApart ds)
      → (lift q >>= (λ all.
            cleanup_loop C conf.metadata.name (buckets_of conf.spec.keep) (newest_first all)))
          w
        ≡ (lift r >>= (λ all.
              cleanup_loop C conf.metadata.name (buckets_of conf.spec.keep) (newest_first all)))
            w
  looped conf w (read {ds = ds} p) h =
      ap (λ all. cleanup_loop C conf.metadata.name (buckets_of conf.spec.keep) all w)
        (newest_first-perm p (h ds refl))
  looped conf w panics h = refl

  -- The order in which the API server lists the sessions plays no role: a clean-up does the same for
  -- every reordering of the list, with any sort that returns the sessions it is given, none newer
  -- than one before it, if no two sessions have started in the same second.
  pub cleanup_listed-perm :
      (conf : BackupConfiguration) (items items' : List BackupSession) (w : C.World)
      → Permᴰ items items'
      → ((ds : List Dated) → dated items ≡ ok ds → AllApart ds)
      → cleanup_listed C newest_first conf items w ≡ cleanup_listed C newest_first conf items' w
  unfolding cleanup_listed
  cleanup_listed-perm conf items items' w p h = elim (Bool-cases (ltb (length items) 2)) [
    | inl few ↦ rw (few, ← length-perm p, few)
    | inr many ↦ rw (many, ← length-perm p, many) (looped conf w (dated-perm p) h)
  ]
