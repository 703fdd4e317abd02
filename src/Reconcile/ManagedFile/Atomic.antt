-- ===== src/Reconcile/ManagedFile/Atomic.antt =====
-- What the destination leads to, at whatever point a method of the adapter ends.
use anvil_events.Base.{ℕ, Option, none, some, List, [], ◌∷◌, ◌≡◌, refl}
use anvil_events.Result.{Fault, Result, ok, err}
use anvil_events.Exec.{◌>>◌}
use anvil_events.Exec.Keeps.{Keeps, keeps_rules}
use anvil_events.Json.{Codec}
use anvil_events.Reconcile.Desired.{Desired}
use anvil_events.Reconcile.Contracts.{Artifact}
use anvil_events.Reconcile.ManagedFile.{
  Entry, absent, file, symlink, Managed, Settings, os_call, judged, write, checked, refuse_symlink,
  read_bytes, contents, chosen_mode, make_temporary, install, unlink_entry, unlink_temporary,
  after_install, replace_file, replace_by, remember_mode, remember, apply_file,
}

module _ (old : Entry) (bytes : List ℕ) where
  -- The old entry, or a file with all of the new bytes.
  pub data IsOldOrNew : Entry → Type 0 where
    is_old : IsOldOrNew old
    is_new : (mode : ℕ) → IsOldOrNew (file bytes mode)

  pub record IsWhole (w : Managed) : Type 0 where
    pub is_whole : IsOldOrNew w.destination

  judged-keeps : (vs : List (Option Fault)) → Keeps IsWhole (judged vs)
  judged-keeps [] = record { at = λ w h. h }
  judged-keeps (v ∷ vs) = record { at = λ w h. record { is_whole = h.is_whole } }

  os_call-keeps : Keeps IsWhole os_call
  unfolding os_call
  os_call-keeps = record { at = λ w h. (judged-keeps w.verdicts).at w h }

  -- A write that leaves the destination.
  write-keeps :
      (f : Managed → Managed)
      → ((w : Managed) → (f w).destination ≡ w.destination)
      → Keeps IsWhole (write f)
  write-keeps f same = record { at = λ w h. record { is_whole = rw (same w) h.is_whole } }

  new-keeps :
      (mode : ℕ)
      → Keeps IsWhole (write (λ w. record w { temporary = absent; destination = file bytes mode }))
  new-keeps mode = record { at = λ w h. record { is_whole = is_new mode } }

  checked-keeps : (r : Result (Unit {0})) → Keeps IsWhole (checked r)
  checked-keeps r = record { at = λ w h. h }

  refuse-keeps : Keeps IsWhole refuse_symlink
  unfolding refuse_symlink
  refuse-keeps = record { at = λ w h. h }

  ruleset file_rules =
      (keeps_rules, os_call-keeps, write-keeps, new-keeps, checked-keeps, refuse-keeps)

  look-keeps : Keeps IsWhole (λ (w : Managed). (ok (contents w.destination), w))
  look-keeps = record { at = λ w h. h }

  read-keeps : Keeps IsWhole read_bytes
  unfolding read_bytes
  read-keeps = search (file_rules, look-keeps)

  remember_mode-keeps : (o : Option (List ℕ)) → Keeps IsWhole (remember_mode o)
  remember_mode-keeps none = write-keeps _ (λ w. refl)
  remember_mode-keeps (some b) = search file_rules

  remember-keeps : Keeps IsWhole remember
  unfolding remember
  remember-keeps = search (file_rules, read-keeps, remember_mode-keeps)

  make_temporary-keeps : Keeps IsWhole make_temporary
  unfolding make_temporary
  make_temporary-keeps = search file_rules

  install-keeps : (mode : ℕ) → Keeps IsWhole (install bytes mode)
  unfolding install
  install-keeps mode = search (file_rules) depth 24

  unlink_entry-keeps : (e : Entry) → Keeps IsWhole (unlink_entry e)
  unlink_entry-keeps absent = record { at = λ w h. h }
  unlink_entry-keeps (file b m) = record { at = λ w h. unlink_it.at w h }
    where
      unlink_it : Keeps IsWhole (os_call >> write (λ w. record w { temporary = absent }))
      unlink_it = search file_rules
  unlink_entry-keeps symlink = record { at = λ w h. unlink_it.at w h }
    where
      unlink_it : Keeps IsWhole (os_call >> write (λ w. record w { temporary = absent }))
      unlink_it = search file_rules

  unlink_temporary-keeps : Keeps IsWhole unlink_temporary
  unfolding unlink_temporary
  unlink_temporary-keeps = record { at = λ w h. (unlink_entry-keeps w.temporary).at w h }

  after_install-keeps : (r : Result (Unit {0})) → Keeps IsWhole (after_install r)
  after_install-keeps (ok u) = search keeps_rules
  after_install-keeps (err e) = search (keeps_rules, unlink_temporary-keeps)

  pub replace_file-keeps : (mode : ℕ) → Keeps IsWhole (replace_file bytes mode)
  unfolding replace_file
  replace_file-keeps mode =
      search (keeps_rules, make_temporary-keeps, install-keeps, after_install-keeps)

  replace_by-keeps : (m : Option ℕ) → Keeps IsWhole (replace_by m bytes)
  unfolding replace_by
  replace_by-keeps m = record {
    at = λ w h. (replace_file-keeps (chosen_mode m w.previous_mode)).at w h;
  }

  steps-keeps :
      (r : Result (Unit {0})) (m : Option ℕ)
      → Keeps IsWhole
          (checked r >> (refuse_symlink >> (os_call >> (remember >> replace_by m bytes))))
  steps-keeps r m = search (file_rules, remember-keeps, replace_by-keeps)

-- The replacement is atomic: whatever calls of the operating system fail, after apply, whether it returns or
-- raises, the destination is the entry that it was or a file with all bytes of the artifact.
pub apply_file-IsWhole :
    (codec : Codec) (settings : Settings) (d : Desired) (a : Artifact) (w : Managed)
    → IsOldOrNew w.destination a.data_bytes (apply_file codec settings d a w).1.destination
unfolding apply_file
apply_file-IsWhole codec settings d a w =
    let kept =
      steps-keeps w.destination a.data_bytes (settings.validator a.data_bytes) settings.mode in
    (kept.at w (record { is_whole = is_old })).is_whole
