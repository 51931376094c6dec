-- ===== src/Processor/Monad.antt =====
-- The world of an attempt, and calls that may raise.
use versarr.Base.{Bool, FilePath, List, String, false, true}
use versarr.Domain.{Result, ok, raised}
use versarr.Schema.{Database}

-- The database, the sidecars written through the writer (the last first), and the hashes that the
-- runtime remembers to recognise its own writes (the last first).
pub record World : Type 0 where
  pub db : Database
  pub writes : List (FilePath × String)
  pub remembered : List (FilePath × String)

abbrev pub Action : Type 0 → Type 0
Action A = World → Result A × World

abbrev pub pure : {A : Type 0} → A → Action A
pure a w = (ok a, w)

abbrev pub lift : {A : Type 0} → Result A → Action A
lift r w = (r, w)

abbrev pub gets : {A : Type 0} → (Database → A) → Action A
gets f w = (ok (f w.db), w)

abbrev pub modify : (Database → Database) → Action (Unit {0})
modify f w = (ok tt, record w { db = f w.db })

infixl 5 ◌>>=◌ ◌>>◌
abbrev pub ◌>>=◌ : {A B : Type 0} → Action A → (A → Action B) → Action B
◌>>=◌ m f w = let (r, w') = m w in elim r [ ok a ↦ f a w' | raised e ↦ (raised e, w') ]

abbrev pub ◌>>◌ : {A B : Type 0} → Action A → Action B → Action B
m >> k = m >>= λ _. k

abbrev pub when : Bool → Action (Unit {0}) → Action (Unit {0})
when true m = m
when false m = pure tt
