-- ===== src/Lock/Tests.antt =====
-- Tests of the instance lock.
use versarr.Base.{
  List, [], arith, if◌then◌else◌, nat_eq, none, path_eq, refl, string_eq, ℕ, ◌==◌, ◌∷◌, ◌≡◌, ◌≢◌,
}
use versarr.Examples.{working}
use versarr.Lock.{AcquireEnd, acquire_sync, new_manager}
use versarr.Lock.Exclusion.{
  IsFree, LockCall, System, lock_call, lock_calls, one_holder, release-acquire,
}
use versarr.Lock.Kernel.{one_lock, one_lock-IsLawful}

-- Two managers, named by their metadata.
abbrev two_managers : System one_lock
two_managers = record {
  manager = λ i. new_manager (if i == 0 then "first" else "second");
  file = record { kernel = none; text = ""; next_handle = 5 };
}

two_managers-IsFree : IsFree one_lock two_managers
two_managers-IsFree = ((λ i. refl), λ h. refl)

abbrev contended : List LockCall
contended = LockCall.acquire 0 working ∷ LockCall.acquire 1 working ∷ []

-- The second manager is told who has the lock.
second_is_told :
    let s = lock_call one_lock (LockCall.acquire 0 working) two_managers in
    (acquire_sync one_lock working (s.manager 1) s.file).0 ≡ AcquireEnd.held "first"
unfolding lock_call acquire_sync
second_is_told = refl

first_has : ((lock_calls one_lock contended two_managers).manager 0).file_handle ≢ none
unfolding lock_calls lock_call acquire_sync
first_has e = absurd (ground (arith, e))

one_holder_example : ◌≡◌ {A = ℕ} 0 0
one_holder_example =
    one_holder one_lock one_lock-IsLawful contended two_managers 0 0 two_managers-IsFree first_has
      first_has

release-acquire_example :
    let t =
      lock_call one_lock
        (LockCall.release 0 working)
        (lock_calls one_lock contended two_managers) in
    let s' = lock_call one_lock (LockCall.acquire 1 working) t in
    ((s'.manager 1).file_handle ≢ none) × (s'.file.text ≡ (t.manager 1).holder_metadata)
release-acquire_example =
    release-acquire one_lock one_lock-IsLawful contended two_managers 0 1 working working
      two_managers-IsFree first_has refl refl refl
