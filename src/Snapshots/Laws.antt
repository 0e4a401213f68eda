-- ===== src/Snapshots/Laws.antt =====
-- What the job of `deleteSnapshots` deletes.
use formol.Prelude.{String, not, List, map, keep_if, ◌==◌}
use formol.Api.Session.{TargetStatus}

-- The snapshots of a session.
abbrev pub snapshots : List TargetStatus → List String
snapshots tss = keep_if (λ id. not (id == "")) (map (λ t. t.snapshot_id) tss)
