-- ===== src/Outcome/Laws.antt =====
-- Sequences of actions.
use formol.Prelude.{refl, ◌≡◌, ◌≢◌, arith}
use formol.Outcome.{Result, ok, err, resume, ◌>>=◌, panic, Action, return, ◌>>◌, ignore}

-- A call whose error is ignored only leaves the state of the cluster to what follows.
pub ignored :
    {W A B : Type 0} (m : Action W A) (k : Action W B) (w : W)
    → (m w).0 ≢ panic
    → (ignore m >> k) w ≡ k (m w).1
ignored m k w p = ground arith

pub unit_after : {W : Type 0} (m : Action W (Unit {0})) (w : W) → (m >> return tt) w ≡ m w
unit_after m w = ground arith

-- A sequence that returns a value has run its first action to a value.
resumed :
    {W A B : Type 0} (k : A → Action W B) (r : Result A) (w1 : W) (b : B) (w' : W)
    → resume k r w1 ≡ (ok b, w')
    → (a : A) × (r ≡ ok a) × (k a w1 ≡ (ok b, w'))
resumed k (ok a) w1 b w' h = (a, refl, h)
resumed k (err e) w1 b w' h = ground arith
resumed k panic w1 b w' h = ground arith

pub bound :
    {W A B : Type 0} (m : Action W A) (k : A → Action W B) (w : W) (b : B) (w' : W)
    → (m >>= k) w ≡ (ok b, w')
    → (a : A) × ((m w).0 ≡ ok a) × (k a (m w).1 ≡ (ok b, w'))
bound m k w b w' h = resumed k (m w).0 (m w).1 b w' h

pub same_value :
    {W A : Type 0} {a b : A} {w w' : W} → ◌≡◌ {A = Result A × W} (ok a, w) (ok b, w') → b ≡ a
same_value h = ground arith

-- A sequence that ends by returning a value has the state that its last action left.
pub last_done :
    {W B : Type 0} (m : Action W (Unit {0})) (a b : B) (w w' : W)
    → (m >> return a) w ≡ (ok b, w')
    → m w ≡ (ok tt, w')
last_done m a b w w' h = ground arith
