-- ===== src/Provenance/Tests.antt =====
-- Tests of the provenance records and the cooldowns.
use versarr.Base.{List, [], first, none, refl, ℕ, ◌∷◌}
use versarr.Examples.{recorded, song}
use versarr.Provenance.{get_provenance}
use versarr.Provenance.Refinement.{
  Operation, Records, Refines, promised_all, run_operations, run_operations-Refines,
}

abbrev no_records : Records
no_records _ = none

nothing_held : Refines [] no_records
unfolding get_provenance first
nothing_held path = refl

abbrev history : List (ℕ × Operation)
history = (5, Operation.record_of recorded) ∷ (9, Operation.diverged song) ∷ []

run_operations-Refines_example :
    Refines (run_operations history []) (promised_all history no_records)
run_operations-Refines_example = run_operations-Refines history [] no_records nothing_held
