-- ===== src/Tests/Files.antt =====
-- The managed file at concrete inputs.
use anvil_events.Base.{none, some, [], ◌∷◌, ◌≡◌, refl}
use anvil_events.Result.{ok, os_error}
use anvil_events.Exec.{◌>>=◌}
use anvil_events.Reconcile.ManagedFile.{file, absent, Managed, Settings, apply_file, rollback_file}
use anvil_events.Reconcile.ManagedFile.Atomic.{IsOldOrNew, apply_file-IsWhole}
use anvil_events.Reconcile.ManagedFile.Restore.{restored, rollback-restores}
use anvil_events.Reconcile.ManagedFile.Applied.{Replaces, apply_file-Replaces}
use anvil_events.Tests.Samples.{plain, router, rev_1}

abbrev anything : Settings
anything = record { validator = λ bytes. ok tt; mode = none }

abbrev plain_file : Managed
plain_file = record {
  destination = file (7 ∷ []) 420;
  temporary = absent;
  previous = none;
  previous_mode = none;
  verdicts = [];
}

-- The fsync of the directory fails, after the file has been replaced.
abbrev failing : Managed
failing = record plain_file {
  verdicts =
      none
      ∷ none
      ∷ none
      ∷ none
      ∷ none
      ∷ none
      ∷ none
      ∷ none
      ∷ none
      ∷ some (os_error "Input/output error")
      ∷ [];
}

apply_file-IsWhole_example :
    IsOldOrNew
      (file (7 ∷ []) 420)
      (1 ∷ [])
      (apply_file plain anything router rev_1 failing).1.destination
apply_file-IsWhole_example = apply_file-IsWhole plain anything router rev_1 failing

failing_test : (apply_file plain anything router rev_1 failing).1.destination ≡ file (1 ∷ []) 420
unfolding apply_file ◌>>=◌
failing_test = refl

abbrev applied : Managed
applied = record plain_file {
  destination = file (1 ∷ []) 420;
  previous = some (7 ∷ []);
  previous_mode = some 420;
}

apply_test : apply_file plain anything router rev_1 plain_file ≡ (ok tt, applied)
unfolding apply_file ◌>>=◌
apply_test = refl

rollback_test :
    rollback_file plain anything router
      (record applied { destination = absent; verdicts = none ∷ [] })
    ≡ (ok tt, record applied { destination = file (7 ∷ []) 420 })
unfolding rollback_file ◌>>=◌
rollback_test = refl

rollback-restores_example :
    (record applied { destination = file (7 ∷ []) 420 }).destination
    ≡ restored plain_file.destination
rollback-restores_example =
    rollback-restores plain anything router rev_1 plain_file applied
      (record applied { destination = file (7 ∷ []) 420 }) absent (none ∷ []) tt apply_test
      rollback_test

apply_file-Replaces_example :
    Replaces plain anything router rev_1 (record plain_file { verdicts = [] })
apply_file-Replaces_example = apply_file-Replaces plain anything router rev_1 plain_file tt refl
