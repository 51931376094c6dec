-- ===== src/Snapshots/Tests.antt =====
-- Tests of the snapshots.
use versarr.Base.{Unique, [], first, nat_eq, path_beq, path_eq, refl, some, string_eq, ◌∷◌, ◌≡◌}
use versarr.Examples.{bare, song}
use versarr.Schema.{SnapshotRow}
use versarr.Snapshots.{snapshot_values, with_path}

abbrev row : SnapshotRow
row = snapshot_values 5 bare

alone : Unique (λ r. r.media_path) (row ∷ [])
alone = (tt, tt)

held_row : first (with_path song) (row ∷ []) ≡ some row
unfolding first path_beq
held_row = refl
