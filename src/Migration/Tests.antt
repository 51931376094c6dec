-- ===== src/Migration/Tests.antt =====
-- Tests of the migration, on a database that is no more than its names.
use mathlib.Core.Option
use versarr.Base.{
  Option, [], arith, if◌then◌else◌, nat_eq, none, path_eq, refl, some, string_eq, ◌==◌, ◌∷◌, ◌≡◌,
}
use versarr.Migration.{Catalog, ColumnType, create, key, remove}
use versarr.Migration.Revision.{downgrade, upgrade}
use versarr.Migration.Undo.{IsCoherent}
use versarr.Migration.Upgrade.{
  IsDeclaredOver, IsDocumented, IsFresh, Statements, run_creations, run_removals,
  upgrade-IsDeclaredOver, upgrade-downgrade,
}

abbrev names_only : Statements
names_only = record {
  State = Catalog;
  run_creation = create;
  run_removal = remove;
  catalog = λ c. c;
}

map_self : {A : Type 0} (o : Option A) → Option.map (λ a. a) o ≡ o
map_self none = refl
map_self (some a) = refl

names_only-IsDocumented : IsDocumented names_only
names_only-IsDocumented = record {
  creates = λ o c. map_self (create o c);
  removes = λ o c. map_self (remove o c);
}

-- A database with a table of some other program.
abbrev other_program : Catalog
other_program = record {
  tables = λ n. if n == "settings" then some (key "name" ColumnType.text ∷ []) else none;
  indexes = λ n. none;
}

other_program-IsCoherent : IsCoherent other_program
other_program-IsCoherent n t columns e = absurd (ground (arith, e))

other_program-IsFresh : IsFresh other_program
other_program-IsFresh = (
  (refl, (refl, (refl, (refl, (refl, (refl, tt)))))),
  (refl, (refl, (refl, (refl, (refl, (refl, tt)))))),
)

upgrade-IsDeclaredOver_example :
    (t : Catalog) × (run_creations names_only upgrade other_program ≡ some t)
    × IsDeclaredOver other_program t
upgrade-IsDeclaredOver_example =
    upgrade-IsDeclaredOver names_only names_only-IsDocumented other_program other_program-IsFresh

upgrade-downgrade_example :
    (t : Catalog) × (run_creations names_only upgrade other_program ≡ some t)
    × ((u : Catalog) × (run_removals names_only downgrade t ≡ some u) × (u ≡ other_program))
upgrade-downgrade_example =
    upgrade-downgrade names_only names_only-IsDocumented other_program other_program-IsCoherent
      other_program-IsFresh
