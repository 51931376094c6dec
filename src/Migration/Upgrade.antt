-- ===== src/Migration/Upgrade.antt =====
-- The migration on a database that has none of its tables, and its downgrade.
use mathlib.Core.Option
use versarr.Base.{
  All, List, Option, Option-cases, String, [], ap, arith, false, inl, inr, map, member, nat_eq,
  none, path_eq, refl, some, string_eq, subst, sym, ◌==◌, ◌∙◌, ◌∷◌, ◌≡◌,
}
use versarr.Breaker.{fresh}
use versarr.Migration.{
  Catalog, Column, Creation, Removal, create, create_all, remove, remove_all, set_name, then_do,
}
use versarr.Migration.Declared.{declared_indexes, declared_tables}
use versarr.Migration.Revision.{downgrade, upgrade}
use versarr.Migration.Undo.{IsCoherent, remove_all-undo, undo_all}

-- A database that runs statements, and what it has under each name.
pub record Statements : Type 1 where
  pub State : Type 0
  pub run_creation : Creation → State → Option State
  pub run_removal : Removal → State → Option State
  pub catalog : State → Catalog

-- The statements do to the names what they are documented to do.
pub record IsDocumented (S : Statements) : Type 0 where
  pub creates :
      (o : Creation) (s : S.State)
      → Option.map S.catalog (S.run_creation o s) ≡ create o (S.catalog s)
  pub removes :
      (o : Removal) (s : S.State)
      → Option.map S.catalog (S.run_removal o s) ≡ remove o (S.catalog s)

-- The names of a list set one after another.
unfoldable set_all : {A : Type 0} → List (String × A) → (String → Option A) → String → Option A
set_all [] f = f
set_all ((name, a) ∷ t) f = set_all t (set_name name (some a) f)

abbrev names_of : {A : Type 0} → List (String × A) → List String
names_of = map (λ e. e.0)

set_all-other :
    {A : Type 0} (es : List (String × A)) (f : String → Option A) (n : String)
    → member n (names_of es) ≡ false
    → set_all es f n ≡ f n
unfolding set_all member
set_all-other [] f n e = refl
set_all-other ((name, a) ∷ t) f n e =
    set_all-other t (set_name name (some a) f) n (ground arith)
    ∙ (let differs : (n == name) ≡ false = ground arith in rw differs refl)

abbrev table_entries : List (String × List Column)
table_entries = map (λ t. (t.name, t.columns)) declared_tables

abbrev index_entries : List (String × (String × List String))
index_entries = map (λ i. (i.name, (i.table, i.columns))) declared_indexes

-- None of the names is taken.
abbrev pub IsFresh : Catalog → Type 0
IsFresh c =
    All (λ t. c.tables t.name ≡ none) declared_tables
    × All (λ i. c.indexes i.name ≡ none) declared_indexes

-- The catalog `d` is `c` with what schema.py declares.
abbrev pub IsDeclaredOver : Catalog → Catalog → Type 0
IsDeclaredOver c d =
    All (λ t. d.tables t.name ≡ some t.columns) declared_tables
    × All (λ i. d.indexes i.name ≡ some (i.table, i.columns)) declared_indexes
    × ((n : String)
        → member n (map (λ t. t.name) declared_tables) ≡ false
        → d.tables n ≡ c.tables n)
    × ((n : String)
        → member n (map (λ i. i.name) declared_indexes) ≡ false
        → d.indexes n ≡ c.indexes n)

abbrev migrated : Catalog → Catalog
migrated c = record {
  tables = set_all table_entries c.tables;
  indexes = set_all index_entries c.indexes;
}

create_all-upgrade : (c : Catalog) → IsFresh c → create_all upgrade c ≡ some (migrated c)
unfolding create_all upgrade create set_all
create_all-upgrade c (t, i) =
    rw
      (
        t.0, i.0, i.1.0, t.1.0, i.1.1.0, t.1.1.0, i.1.1.1.0, t.1.1.1.0, i.1.1.1.1.0, t.1.1.1.1.0,
        t.1.1.1.1.1.0, i.1.1.1.1.1.0,
      )
      refl

migrated-IsDeclaredOver : (c : Catalog) → IsDeclaredOver c (migrated c)
unfolding set_all
migrated-IsDeclaredOver c = (
  (refl, (refl, (refl, (refl, (refl, (refl, tt)))))),
  (refl, (refl, (refl, (refl, (refl, (refl, tt)))))),
  λ n e. set_all-other table_entries c.tables n e,
  λ n e. set_all-other index_entries c.indexes n e,
)

-- The downgrade removes what the upgrade created, the last first.
undo_all-upgrade : undo_all upgrade ≡ downgrade
unfolding undo_all upgrade downgrade
undo_all-upgrade = refl

module _ (S : Statements) where
  unfoldable pub run_creations : List Creation → S.State → Option S.State
  run_creations [] s = some s
  run_creations (o ∷ t) s = then_do (S.run_creation o s) (run_creations t)

  unfoldable pub run_removals : List Removal → S.State → Option S.State
  run_removals [] s = some s
  run_removals (o ∷ t) s = then_do (S.run_removal o s) (run_removals t)

  module _ (law : IsDocumented S) where
    run_creations-create_all :
        (os : List Creation) (s : S.State)
        → Option.map S.catalog (run_creations os s) ≡ create_all os (S.catalog s)
    unfolding run_creations create_all
    run_creations-create_all [] s = refl
    run_creations-create_all (o ∷ t) s = elim (Option-cases (S.run_creation o s)) [
      | inl e ↦
          let l : none ≡ create o (S.catalog s) = rw e at (law.creates o s) in rw (e, sym l) refl
      | inr (s1, e) ↦
          let l : some (S.catalog s1) ≡ create o (S.catalog s) = rw e at (law.creates o s) in
          rw (e, sym l) (run_creations-create_all t s1)
    ]

    run_removals-remove_all :
        (os : List Removal) (s : S.State)
        → Option.map S.catalog (run_removals os s) ≡ remove_all os (S.catalog s)
    unfolding run_removals remove_all
    run_removals-remove_all [] s = refl
    run_removals-remove_all (o ∷ t) s = elim (Option-cases (S.run_removal o s)) [
      | inl e ↦
          let l : none ≡ remove o (S.catalog s) = rw e at (law.removes o s) in rw (e, sym l) refl
      | inr (s1, e) ↦
          let l : some (S.catalog s1) ≡ remove o (S.catalog s) = rw e at (law.removes o s) in
          rw (e, sym l) (run_removals-remove_all t s1)
    ]

abbrev value_or : {B : Type 0} → B → Option B → B
value_or x none = x
value_or x (some y) = y

mapped_some :
    {A B : Type 0} (f : A → B) (o : Option A) (b : B)
    → Option.map f o ≡ some b
    → (a : A) × (o ≡ some a) × (f a ≡ b)
mapped_some f none b e = absurd (ground arith)
mapped_some f (some a) b e = (a, refl, ap (value_or b) e)

upgraded :
    (S : Statements) (law : IsDocumented S) (s : S.State)
    → IsFresh (S.catalog s)
    → (t : S.State) × (run_creations S upgrade s ≡ some t) × (S.catalog t ≡ migrated (S.catalog s))
upgraded S law s fresh =
    mapped_some S.catalog (run_creations S upgrade s) (migrated (S.catalog s))
      (run_creations-create_all S law upgrade s ∙ create_all-upgrade (S.catalog s) fresh)

-- Where statements do to the names what they are documented to do, and the database has none of the
-- names, the migration runs through, and afterwards the database has the tables with the columns,
-- and the indexes, that schema.py declares, and every other name as before.
pub upgrade-IsDeclaredOver :
    (S : Statements) (law : IsDocumented S) (s : S.State)
    → IsFresh (S.catalog s)
    → (t : S.State) × (run_creations S upgrade s ≡ some t)
      × IsDeclaredOver (S.catalog s) (S.catalog t)
upgrade-IsDeclaredOver S law s fresh =
    let (t, e, same) = upgraded S law s fresh in
    (t, e, subst (IsDeclaredOver (S.catalog s)) (sym same) (migrated-IsDeclaredOver (S.catalog s)))

-- Where statements do to the names what they are documented to do, the database has none of the
-- names and every index is of a table that is there, the migration and then its downgrade run
-- through, and leave under every name what was there.
pub upgrade-downgrade :
    (S : Statements) (law : IsDocumented S) (s : S.State)
    → IsCoherent (S.catalog s)
    → IsFresh (S.catalog s)
    → (t : S.State) × (run_creations S upgrade s ≡ some t)
      × ((u : S.State) × (run_removals S downgrade t ≡ some u) × (S.catalog u ≡ S.catalog s))
upgrade-downgrade S law s coherent fresh =
    let (t, e, same) = upgraded S law s fresh in
    let undone : remove_all downgrade (migrated (S.catalog s)) ≡ some (S.catalog s) =
      subst (λ os. remove_all os (migrated (S.catalog s)) ≡ some (S.catalog s)) undo_all-upgrade
        (remove_all-undo upgrade (S.catalog s) (migrated (S.catalog s)) coherent
          (create_all-upgrade (S.catalog s) fresh)) in
    (
      t,
      e,
      mapped_some S.catalog (run_removals S downgrade t) (S.catalog s)
          (run_removals-remove_all S law downgrade t ∙ ap (remove_all downgrade) same ∙ undone),
    )
