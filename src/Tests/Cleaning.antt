-- ===== src/Tests/Cleaning.antt =====
-- The retention rules in a cluster with three sessions.
use formol.Prelude.{
  ◌≡◌, ◌≢◌, refl, sym, ap, ◌∙◌, inl, String, ◌==◌, eq_iff, false, ℕ, List, [], ◌∷◌, All, map, arith,
}
use formol.Api.Meta.{ObjectKey, key_of, named}
use formol.Api.Session.{success, BackupSession}
use formol.Api.Objects.{Kind, Object}
use formol.Client.{Client}
use formol.Client.Laws.{IsSessionCluster}
use formol.Outcome.{Result, ok, err, panic}
use formol.Retention.{Dated, buckets_of, cleanup_loop}
use formol.Retention.Plan.{plan}
use formol.Retention.Settled.{Settled, cleanup_loop-Settled}
use formol.Tests.Samples.{two, session_of}
use formol.Tests.Keeping.{january}
use formol.Tests.Server.{
  Objects, put, find, without, server, server_put, find-key, find-own, find-put_other, find-without,
  find-without_other,
}

abbrev own : BackupSession → ObjectKey
own s = key_of s.metadata

abbrev with_status : BackupSession → Result BackupSession → Objects → Result (Unit {0}) × Objects
with_status s (ok old) w = (
  ok tt,
  put Kind.backup_session
      (record old { status = s.status } ∷ without own (key_of s.metadata) (w Kind.backup_session))
      w,
)
with_status s (err e) w = (err e, w)
with_status s panic w = (panic, w)

abbrev status_put : (k : Kind) → Object k → Objects → Result (Unit {0}) × Objects
status_put Kind.backup_session s w =
    with_status s (find own (w Kind.backup_session) (key_of s.metadata)) w
status_put k o w = server_put k o w

abbrev cleaning : Client
cleaning = record server { update_status = status_put }

abbrev look : ObjectKey → Objects → Result BackupSession
look key w = find own (w Kind.backup_session) key

stored_status :
    (s old : BackupSession) (w : Objects)
    → look (key_of s.metadata) w ≡ ok old
    → look (key_of s.metadata) (with_status s (look (key_of s.metadata) w) w).1
      ≡ ok (record old { status = s.status })
stored_status s old w h =
    let same : key_of old.metadata ≡ key_of s.metadata =
      find-key own (w Kind.backup_session) (key_of s.metadata) old h in
    let now =
      record old { status = s.status } ∷ without own (key_of s.metadata) (w Kind.backup_session) in
    rw h (
      ap (find own now) (sym same)
      ∙ find-own own (record old { status = s.status })
          (without own (key_of s.metadata) (w Kind.backup_session)))

stored_elsewhere :
    (s : BackupSession) (key : ObjectKey) (w : Objects) (r : Result BackupSession)
    → look (key_of s.metadata) w ≡ r
    → key ≢ key_of s.metadata
    → look key (with_status s r w).1 ≡ look key w
stored_elsewhere s key w (ok old) h n =
    let same : key_of s.metadata ≡ key_of old.metadata =
      sym (find-key own (w Kind.backup_session) (key_of s.metadata) old h) in
    let new : BackupSession = record old { status = s.status } in
    ap (λ gone. find own (new ∷ without own gone (w Kind.backup_session)) key) same
    ∙ find-put_other own new (w Kind.backup_session) key (λ e. n (e ∙ sym same))
stored_elsewhere s key w (err e) h n = refl
stored_elsewhere s key w panic h n = refl

cleaning-IsSessionCluster : IsSessionCluster cleaning
cleaning-IsSessionCluster = record {
  update_status_ok = λ s old w h. rw h refl;
  get-update_status = λ s old w h. stored_status s old w h;
  delete_ok = λ s old w h. refl;
  get-delete = λ s old w h. inl (find-without own (w Kind.backup_session) (key_of s.metadata));
  get-update_status_elsewhere =
      λ s key w n. stored_elsewhere s key w (look (key_of s.metadata) w) refl n;
  get-delete_elsewhere =
      λ s key w n. find-without_other own (w Kind.backup_session) key (key_of s.metadata) n;
}

abbrev called : String → BackupSession
called name = record (session_of success []) { metadata = named "ns" name }

abbrev ended : ℕ → String → Dated
ended day name = record { session = called name; time = january day }

other_name :
    (s t : BackupSession)
    → (s.metadata.name == t.metadata.name) ≡ false
    → key_of s.metadata ≢ key_of t.metadata
other_name s t n e =
    ground (arith, eq_iff s.metadata.name t.metadata.name, ap (λ (k : ObjectKey). k.name) e)

abbrev three : List Dated
three = ended 3 "s3" ∷ ended 2 "s2" ∷ ended 1 "s1" ∷ []

abbrev start : Objects
start Kind.backup_session = map (λ d. d.session) three
start _ = []

abbrev after : Objects
after = (cleanup_loop cleaning "conf" (buckets_of two.spec.keep) three start).1

cleanup_loop-Settled_example :
    All
      (λ d. Settled cleaning cleaning-IsSessionCluster after d.session d.keep)
      (plan "conf" (buckets_of two.spec.keep) three)
cleanup_loop-Settled_example =
    cleanup_loop-Settled cleaning cleaning-IsSessionCluster "conf" (buckets_of two.spec.keep) three
      start
      (
        (
          other_name (called "s3") (called "s2") refl,
          (other_name (called "s3") (called "s1") refl, tt),
        ),
        ((other_name (called "s2") (called "s1") refl, tt), (tt, tt)),
      )
      (refl, (refl, (refl, tt)))
