-- ===== src/Settings/Tests.antt =====
-- Tests of the settings.
use versarr.Base.{
  [], any, member, nat_eq, none, parents, path_beq, path_eq, refl, some, string_eq, true, ◌∷◌, ◌≡◌,
}
use versarr.Examples.{library, song}
use versarr.Settings.{any_overlap, has_duplicates, overlap, validate_library_roots}

roots_accepted :
    validate_library_roots (λ p. p) (λ _. true) (λ p. some p) (library ∷ []) ≡ some (library ∷ [])
unfolding validate_library_roots has_duplicates any_overlap any member
roots_accepted = refl

nested_refused :
    validate_library_roots (λ p. p) (λ _. true) (λ p. some p) (library ∷ song ∷ []) ≡ none
unfolding validate_library_roots has_duplicates any_overlap any member path_beq parents overlap
nested_refused = refl
