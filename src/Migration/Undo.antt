-- ===== src/Migration/Undo.antt =====
-- The removals that undo creations.
use versarr.Base.{
  Bool-cases, List, Option, Option-cases, String, [], ap, arith, beq_self, beq→eq, false, fun_ext,
  inl, inr, is_some, nat_eq, none, not, path_eq, refl, some, string_eq, subst, sym, true, ◌++◌,
  ◌==◌, ◌||◌, ◌∙◌, ◌∷◌, ◌≡◌,
}
use versarr.Migration.{
  Catalog, Column, Creation, Removal, create, create_all, remove, remove_all, set_name, then_do,
  without,
}

abbrev pub undo : Creation → Removal
undo (Creation.table t) = Removal.table t.name
undo (Creation.index i) = Removal.index i.name

-- The removals of a list of creations, the last creation first.
unfoldable pub undo_all : List Creation → List Removal
undo_all [] = []
undo_all (o ∷ t) = undo_all t ++ undo o ∷ []

-- Every index is of a table that is there.
abbrev pub IsCoherent : Catalog → Type 0
IsCoherent c =
    (n t : String) (columns : List String)
    → c.indexes n ≡ some (t, columns)
    → is_some (c.tables t) ≡ true

absent : {A : Type 0} (o : Option A) → is_some o ≡ false → o ≡ none
absent none e = refl
absent (some a) e = absurd (ground arith)

-- Taking back a name that was free.
set_name-back :
    {A : Type 0} (name : String) (v : Option A) (f : String → Option A)
    → f name ≡ none
    → set_name name none (set_name name v f) ≡ f
set_name-back name v f free = fun_ext (λ n. elim (Bool-cases (n == name)) [
  | inl e ↦ rw (e, beq→eq n name e) (sym free)
  | inr e ↦ rw e refl
])

without-absent :
    (c : Catalog) (name : String)
    → IsCoherent c
    → is_some (c.tables name) ≡ false
    → (n : String) → without name (c.indexes n) ≡ c.indexes n
without-absent c name coherent free n = elim (Option-cases (c.indexes n)) [
  | inl e ↦ rw e refl
  | inr ((t, columns), e) ↦ elim (Bool-cases (t == name)) [
    | inl same ↦
        let there = coherent n t columns e in
        absurd (ground (arith, subst (λ x. is_some (c.tables x) ≡ true) (beq→eq t name same) there))
    | inr other ↦ rw (e, other) refl
  ]
]

same_catalog :
    (a b : String → Option (List Column)) (x y : String → Option (String × List String))
    → a ≡ b
    → x ≡ y
    → ◌≡◌ {A = Option Catalog}
        (some (record { tables = a; indexes = x }))
        (some (record { tables = b; indexes = y }))
same_catalog a b x y p q = λ i. some (record { tables = p i; indexes = q i })

-- A creation that works is undone by its removal.
create-undo :
    (o : Creation) (c d : Catalog)
    → IsCoherent c
    → create o c ≡ some d
    → then_do (create o c) (remove (undo o)) ≡ some c
unfolding create remove
create-undo (Creation.table t) c d coherent e = elim (Bool-cases (is_some (c.tables t.name))) [
  | inl taken ↦ absurd (ground (arith, rw taken at e))
  | inr free ↦
      rw (free, beq_self t.name)
        (same_catalog _ c.tables _ c.indexes
          (set_name-back t.name (some t.columns) c.tables (absent (c.tables t.name) free))
          (fun_ext (without-absent c t.name coherent free)))
]
create-undo (Creation.index i) c d coherent e =
    elim (Bool-cases (is_some (c.indexes i.name) || not (is_some (c.tables i.table)))) [
      | inl taken ↦ absurd (ground (arith, rw taken at e))
      | inr free ↦
          rw (free, beq_self i.name)
            (same_catalog _ c.tables _ c.indexes refl (
              set_name-back i.name (some (i.table, i.columns)) c.indexes
                (absent (c.indexes i.name) (ground arith))))
    ]

remove-undo :
    (o : Creation) (c d : Catalog) → IsCoherent c → create o c ≡ some d → remove (undo o) d ≡ some c
remove-undo o c d coherent e =
    subst (λ x. then_do x (remove (undo o)) ≡ some c) e (create-undo o c d coherent e)

abbrev Holds : (Catalog → Type 0) → Option Catalog → Type 0
Holds P none = Unit
Holds P (some c) = P c

abbrev table_of : Option (String × List String) → String
table_of none = ""
table_of (some (t, _)) = t

set_name-there :
    {A : Type 0} (name n : String) (a : A) (f : String → Option A)
    → is_some (f n) ≡ true
    → is_some (set_name name (some a) f n) ≡ true
set_name-there name n a f there = elim (Bool-cases (n == name)) [
  | inl e ↦ rw e refl
  | inr e ↦ rw e there
]

created-IsCoherent : (o : Creation) (c : Catalog) → IsCoherent c → Holds IsCoherent (create o c)
unfolding create
created-IsCoherent (Creation.table t) c coherent = elim (Bool-cases (is_some (c.tables t.name))) [
  | inl taken ↦ rw taken tt
  | inr free ↦
      rw free (λ n x columns e. set_name-there t.name x t.columns c.tables (coherent n x columns e))
]
created-IsCoherent (Creation.index i) c coherent =
    elim (Bool-cases (is_some (c.indexes i.name) || not (is_some (c.tables i.table)))) [
      | inl taken ↦ rw taken tt
      | inr free ↦ rw free (λ n x columns e. elim (Bool-cases (n == i.name)) [
        | inl same ↦
            let there : is_some (c.tables i.table) ≡ true = ground arith in
            subst (λ y. is_some (c.tables y) ≡ true) (ap table_of (rw same at e)) there
        | inr other ↦ coherent n x columns (rw other at e)
      ])
    ]

create-IsCoherent :
    (o : Creation) (c d : Catalog) → create o c ≡ some d → IsCoherent c → IsCoherent d
create-IsCoherent o c d e coherent = subst (Holds IsCoherent) e (created-IsCoherent o c coherent)

remove_all-append :
    (xs ys : List Removal) (c d : Catalog)
    → remove_all xs c ≡ some d
    → remove_all (xs ++ ys) c ≡ remove_all ys d
unfolding remove_all
remove_all-append [] ys c d e = ap (λ o. then_do o (remove_all ys)) e
remove_all-append (x ∷ xs) ys c d e = elim (Option-cases (remove x c)) [
  | inl n ↦ absurd (ground (arith, rw n at e))
  | inr (m, h) ↦ rw h (remove_all-append xs ys m d (rw h at e))
]

-- Creations that work are undone by their removals in the opposite order.
pub remove_all-undo :
    (os : List Creation) (c d : Catalog)
    → IsCoherent c
    → create_all os c ≡ some d
    → remove_all (undo_all os) d ≡ some c
unfolding create_all remove_all undo_all
remove_all-undo [] c d coherent e = sym e
remove_all-undo (o ∷ t) c d coherent e = elim (Option-cases (create o c)) [
  | inl n ↦ absurd (ground (arith, rw n at e))
  | inr (m, h) ↦
      let rest = remove_all-undo t m d (create-IsCoherent o c m h coherent) (rw h at e) in
      remove_all-append (undo_all t) (undo o ∷ []) d m rest ∙ rw (remove-undo o c m coherent h) refl
]
