-- ===== src/Base/Paths.antt =====
-- File paths as pathlib reads them (pathlib.PurePosixPath): absolute, a list of names, the innermost
-- first; a name is kept in the two parts `stem` and `suffix` that pathlib splits it into. The text
-- `str(path)` of such a path determines it, so the path itself stands for the text that is stored.
use Prim.Native.String.{String}
use mathlib.Core.Path.{◌≡◌}
use mathlib.Core.Logic.{◌↔◌}
use mathlib.Core.Bool.{Bool, true, false, ◌&&◌}
use mathlib.Core.List.{List, [], ◌∷◌}
use text.Mathlib.Text.{◌==◌ as str_eq}
use text.Mathlib.TextEquality.{eq_iff}
use native.Mathlib.Omega.{arith}
use versarr.Base.Tests.{Eq}

pub record Name : Type 0 where
  pub stem : String
  pub suffix : String

pub name_beq : Name → Name → Bool
name_beq a b = str_eq a.stem b.stem && str_eq a.suffix b.suffix

pub name_beq_iff : (a b : Name) → (name_beq a b ≡ true) ↔ (a ≡ b)
unfolding name_beq
name_beq_iff a b = ground (arith, eq_iff a.stem b.stem, eq_iff a.suffix b.suffix)

abbrev pub FilePath : Type 0
FilePath = List Name

unfoldable pub path_beq : FilePath → FilePath → Bool
unfolding name_beq
path_beq [] [] = true
path_beq (a ∷ p) (b ∷ q) = name_beq a b && path_beq p q
path_beq _ _ = false

pub path_beq_iff : (p q : FilePath) → (path_beq p q ≡ true) ↔ (p ≡ q)
unfolding path_beq
path_beq_iff [] [] = ground arith
path_beq_iff [] (b ∷ q) = ground arith
path_beq_iff (a ∷ p) [] = ground arith
path_beq_iff (a ∷ p) (b ∷ q) = ground (arith, name_beq_iff a b, path_beq_iff p q)

instance abbrev pub path_eq : Eq FilePath
path_eq = record { beq = path_beq; beq_iff = path_beq_iff }

-- `path.parents`: the proper ancestors, the nearest first.
unfoldable pub parents : FilePath → List FilePath
parents [] = []
parents (n ∷ p) = p ∷ parents p

-- `path.parent`: the root is its own parent.
unfoldable pub parent : FilePath → FilePath
parent [] = []
parent (n ∷ p) = p
