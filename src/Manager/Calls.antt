-- ===== src/Manager/Calls.antt =====
-- The set-up of the manager in `main` (main.go) as a list of calls.
use formol.Prelude.{◌≡◌, ◌≢◌, refl, ◌⊎◌, inl, inr, List, [], ◌∷◌, ◌++◌, arith}
use formol.Api.Objects.{Kind}
use formol.Outcome.{Result, ok, err, panic, Action, resume, ◌>>◌}
use formol.Manager.{
  Flags, default_flags, parsed, Runtime, session_state_field, session_index, exit_code,
  create_manager, set_up_backup_session, serve, main,
}

module _ {W : Type 0} where
  -- All of the calls succeed, one after the other.
  pub data Performed : List (Action W (Unit {0})) → W → W → Type 0 where
    nothing : (w : W) → Performed [] w w
    call :
        {m : Action W (Unit {0})} {rest : List (Action W (Unit {0}))} {w w' : W}
        → (m w).0 ≡ ok tt
        → Performed rest (m w).1 w'
        → Performed (m ∷ rest) w w'

  -- One of the calls does not succeed, and none after it is made.
  pub data Stopped : List (Action W (Unit {0})) → W → W → Type 0 where
    at :
        {m : Action W (Unit {0})} {rest : List (Action W (Unit {0}))} {w : W}
        → (m w).0 ≢ ok tt
        → Stopped (m ∷ rest) w (m w).1
    after :
        {m : Action W (Unit {0})} {rest : List (Action W (Unit {0}))} {w w' : W}
        → (m w).0 ≡ ok tt
        → Stopped rest (m w).1 w'
        → Stopped (m ∷ rest) w w'

  abbrev pub Ends : List (Action W (Unit {0})) → W → Result (Unit {0}) → W → Type 0
  Ends ms w (ok _) w' = Performed ms w w'
  Ends ms w _ w' = Stopped ms w w'

  -- The action makes the calls of the list.
  abbrev pub Makes : List (Action W (Unit {0})) → Action W (Unit {0}) → Type 0
  Makes ms m = (w : W) → Ends ms w (m w).0 (m w).1

  Makes-one_as :
      (m : Action W (Unit {0})) (w : W) (r : Result (Unit {0}))
      → (m w).0 ≡ r
      → Ends (m ∷ []) w r (m w).1
  Makes-one_as m w (ok tt) e = call e (nothing (m w).1)
  Makes-one_as m w (err x) e = at (λ f. ground arith)
  Makes-one_as m w panic e = at (λ f. ground arith)

  pub Makes-one : (m : Action W (Unit {0})) → Makes (m ∷ []) m
  Makes-one m w = Makes-one_as m w (m w).0 refl

  Performed-append :
      {ms : List (Action W (Unit {0}))} (ns : List (Action W (Unit {0}))) {w v : W}
      (r : Result (Unit {0})) (w' : W)
      → Performed ms w v
      → Ends ns v r w'
      → Ends (ms ++ ns) w r w'
  Performed-append ns r w' (nothing w) q = q
  Performed-append ns (ok _) w' (call e p) q = call e (Performed-append ns (ok tt) w' p q)
  Performed-append ns (err x) w' (call e p) q = after e (Performed-append ns (err x) w' p q)
  Performed-append ns panic w' (call e p) q = after e (Performed-append ns panic w' p q)

  Stopped-append :
      {ms : List (Action W (Unit {0}))} {w w' : W} (ns : List (Action W (Unit {0})))
      → Stopped ms w w'
      → Stopped (ms ++ ns) w w'
  Stopped-append ns (at n) = at n
  Stopped-append ns (after e s) = after e (Stopped-append ns s)

  Makes-resume :
      (ms ns : List (Action W (Unit {0}))) (k : Action W (Unit {0})) (w v : W)
      (r : Result (Unit {0}))
      → Ends ms w r v
      → Makes ns k
      → Ends (ms ++ ns) w (resume (λ _. k) r v).0 (resume (λ _. k) r v).1
  Makes-resume ms ns k w v (ok _) p h = Performed-append ns (k v).0 (k v).1 p (h v)
  Makes-resume ms ns k w v (err x) p h = Stopped-append ns p
  Makes-resume ms ns k w v panic p h = Stopped-append ns p

  pub Makes-then :
      (ms ns : List (Action W (Unit {0}))) (m k : Action W (Unit {0}))
      → Makes ms m
      → Makes ns k
      → Makes (ms ++ ns) (m >> k)
  Makes-then ms ns m k p h w = Makes-resume ms ns k w (m w).1 (m w).0 (p w) h

  Makes-call :
      (m k : Action W (Unit {0})) (ns : List (Action W (Unit {0})))
      → Makes ns k
      → Makes (m ∷ ns) (m >> k)
  Makes-call m k ns h = Makes-then (m ∷ []) ns m k (Makes-one m) h

  ended :
      (ms : List (Action W (Unit {0}))) (w w' : W) (r : Result (Unit {0}))
      → Ends ms w r w'
      → ((exit_code r ≡ 0) × Performed ms w w') ⊎ ((exit_code r ≢ 0) × Stopped ms w w')
  ended ms w w' (ok _) p = inl (refl, p)
  ended ms w w' (err x) p = inr ((λ e. ground arith), p)
  ended ms w w' panic p = inr ((λ e. ground arith), p)

module _ (R : Runtime) where
  -- The calls that set the manager up and start it, in their order.
  abbrev pub calls : Flags → List (Action R.World (Unit {0}))
  calls flags =
      create_manager R flags
      ∷ R.complete Kind.backup_configuration
      ∷ R.index_field session_state_field session_index
      ∷ R.complete Kind.backup_session
      ∷ R.complete Kind.restore_session
      ∷ R.add_healthz_check "healthz"
      ∷ R.add_readyz_check "readyz"
      ∷ R.start
      ∷ []

  serve-Makes : (flags : Flags) → Makes (calls flags) (serve R flags)
  unfolding serve set_up_backup_session
  serve-Makes flags =
      let indexed = R.index_field session_state_field session_index in
      Makes-call (create_manager R flags) _ _ (
        Makes-call (R.complete Kind.backup_configuration) _ _ (
          Makes-then (indexed ∷ R.complete Kind.backup_session ∷ []) _ (set_up_backup_session R) _
            (Makes-call indexed _ _ (Makes-one (R.complete Kind.backup_session)))
            (Makes-call (R.complete Kind.restore_session) _ _ (
              Makes-call (R.add_healthz_check "healthz") _ _
                (Makes-call (R.add_readyz_check "readyz") _ _ (Makes-one R.start))))))

  -- With flags that are read, the process ends with the code 0 exactly if the creation of the manager,
  -- the three controllers, the index of the sessions, the two checks and the manager's run have all
  -- succeeded, in this order, and the first of them that does not succeed is the last that is made: the
  -- manager is not started without its controllers, nor those of the sessions without the index.
  pub main-calls :
      (flags : Flags) (w : R.World)
      → R.parse default_flags w ≡ parsed flags
      → (((main R w).0 ≡ 0) × Performed (calls flags) w (main R w).1)
        ⊎ (((main R w).0 ≢ 0) × Stopped (calls flags) w (main R w).1)
  unfolding main
  main-calls flags w h =
      rw (main, h)
        (ended (calls flags) w (serve R flags w).1 (serve R flags w).0 (serve-Makes flags w))
