-- ===== src/Reconcile/ManagedFile.antt =====
-- reconciliation/file_adapter.py: ManagedFileAdapter over its destination and the temporary file beside it.
-- Each call of the operating system takes the next verdict: it succeeds, or it raises. The system is POSIX.
pub mod Atomic
pub mod Steps
pub mod Restore
pub mod Applied
use Prim.Native.String.{◌++◌ as append}
use anvil_events.Base.{
  ℕ, String, Bool, false, Option, none, some, List, [], ◌∷◌, ◌==◌, ◌%◌, nat_eq, string_eq,
  if◌then◌else◌,
}
use anvil_events.Result.{Fault, Result, ok, err, os_error}
use anvil_events.Exec.{Exec, pure, raise, attempt, ◌>>=◌, ◌>>◌}
use anvil_events.Json.{Codec}
use anvil_events.Reconcile.Desired.{Desired}
use anvil_events.Reconcile.Contracts.{Artifact, Preview}
use anvil_events.Reconcile.Engine.Types.{Adapter}

-- What a path leads to: nothing, a file with its bytes and its mode, or a symbolic link.
pub data Entry : Type 0 where
  absent : Entry
  file : List ℕ → ℕ → Entry
  symlink : Entry

-- The destination, the temporary file, the adapter's two fields, and the verdicts to come.
pub record Managed : Type 0 where
  pub destination : Entry
  pub temporary : Entry
  pub previous : Option (List ℕ)
  pub previous_mode : Option ℕ
  pub verdicts : List (Option Fault)

-- The validator, which raises or returns, and the mode of the constructor.
pub record Settings : Type 0 where
  pub validator : List ℕ → Result (Unit {0})
  pub mode : Option ℕ

abbrev pub verdict : Option Fault → Result (Unit {0})
verdict none = ok tt
verdict (some e) = err e

abbrev pub judged : List (Option Fault) → Exec Managed (Unit {0})
judged [] w = (ok tt, w)
judged (v ∷ vs) w = (verdict v, record w { verdicts = vs })

-- A call of the operating system that may fail.
unfoldable pub os_call : Exec Managed (Unit {0})
os_call w = judged w.verdicts w

abbrev pub write : (Managed → Managed) → Exec Managed (Unit {0})
write f w = (ok tt, f w)

abbrev pub checked : Result (Unit {0}) → Exec Managed (Unit {0})
checked r w = (r, w)

abbrev pub refuse_link : Entry → Result (Unit {0})
refuse_link symlink = err (os_error "managed-file destination must not be a symlink")
refuse_link _ = ok tt

-- _refuse_symlink
unfoldable pub refuse_symlink : Exec Managed (Unit {0})
refuse_symlink w = (refuse_link w.destination, w)

abbrev pub contents : Entry → Option (List ℕ)
contents (file bytes mode) = some bytes
contents _ = none

-- st_mode & 0o777
abbrev pub mode_of : Entry → Option ℕ
mode_of (file bytes mode) = some (mode % 512)
mode_of _ = none

-- read_bytes() or None where there is no file
unfoldable pub read_bytes : Exec Managed (Option (List ℕ))
read_bytes = os_call >> λ w. (ok (contents w.destination), w)

-- mode or 0o600
abbrev pub mode_or : Option ℕ → ℕ
mode_or none = 384
mode_or (some m) = if m == 0 then 384 else m

abbrev pub chosen_mode : Option ℕ → Option ℕ → ℕ
chosen_mode (some mode) previous = mode
chosen_mode none previous = mode_or previous

-- mkstemp, then the body of the try: write, flush, fsync, chmod, replace, and the directory's fsync.
unfoldable pub make_temporary : Exec Managed (Unit {0})
unfolding os_call
make_temporary = os_call >> write (λ w. record w { temporary = file [] 384 })

unfoldable pub install : List ℕ → ℕ → Exec Managed (Unit {0})
unfolding os_call
install bytes mode = do
  os_call
  write (λ w. record w { temporary = file bytes 384 })
  os_call
  os_call
  os_call
  write (λ w. record w { temporary = file bytes mode })
  os_call
  write (λ w. record w { temporary = absent; destination = file bytes mode })
  os_call
  os_call

abbrev pub unlink_entry : Entry → Exec Managed (Unit {0})
unlink_entry absent w = (ok tt, w)
unlink_entry _ w = (os_call >> write (λ w. record w { temporary = absent })) w

-- os.unlink(temporary), where a missing file is no fault
unfoldable pub unlink_temporary : Exec Managed (Unit {0})
unfolding os_call
unlink_temporary w = unlink_entry w.temporary w

abbrev pub after_install : Result (Unit {0}) → Exec Managed (Unit {0})
after_install (ok u) = pure u
after_install (err e) = unlink_temporary >> raise e

-- A temporary file that replaces the destination, or is removed.
unfoldable pub replace_file : List ℕ → ℕ → Exec Managed (Unit {0})
unfolding install make_temporary unlink_temporary
replace_file bytes mode = do make_temporary; done ← attempt (install bytes mode); after_install done

-- The mode of the constructor, or that of the file before.
unfoldable pub replace_by : Option ℕ → List ℕ → Exec Managed (Unit {0})
unfolding replace_file
replace_by mode bytes w = replace_file bytes (chosen_mode mode w.previous_mode) w

abbrev pub remember_mode : Option (List ℕ) → Exec Managed (Unit {0})
remember_mode none = write (λ w. record w { previous = none; previous_mode = none })
remember_mode (some bytes) = do
  write (λ w. record w { previous = some bytes })
  os_call
  write (λ w. record w { previous_mode = mode_of w.destination })

-- self._previous and self._previous_mode
unfoldable pub remember : Exec Managed (Unit {0})
unfolding read_bytes os_call
remember = read_bytes >>= remember_mode

abbrev pub unlink_destination : Entry → Exec Managed (Unit {0})
unlink_destination absent w = (ok tt, w)
unlink_destination _ w = (os_call >> write (λ w. record w { destination = absent })) w

abbrev pub roll_back_to : Option (List ℕ) → Exec Managed (Unit {0})
roll_back_to none w = unlink_destination w.destination w
roll_back_to (some bytes) w = replace_file bytes (mode_or w.previous_mode) w

module _ (codec : Codec) (settings : Settings) where
  abbrev pub bytes_or_empty : Option (List ℕ) → List ℕ
  bytes_or_empty none = []
  bytes_or_empty (some bytes) = bytes

  unfoldable pub preview_file : Desired → Artifact → Exec Managed Preview
  unfolding refuse_symlink read_bytes
  preview_file d a = do
    checked (settings.validator a.data_bytes)
    refuse_symlink
    before ← read_bytes
    pure (record {
      summary = append "replace managed file for " d.payload.resource;
      changes =
          append "sha256:" (
            append (codec.sha256_bytes (bytes_or_empty before))
              (append " -> " (codec.sha256_bytes a.data_bytes)))
          ∷ [];
    })

  unfoldable pub apply_file : Desired → Artifact → Exec Managed (Unit {0})
  unfolding refuse_symlink os_call remember replace_by
  apply_file d a = do
    checked (settings.validator a.data_bytes)
    refuse_symlink
    os_call
    remember
    replace_by settings.mode a.data_bytes

  abbrev pub matches_digest : String → Option (List ℕ) → Bool
  matches_digest digest none = false
  matches_digest digest (some bytes) = codec.sha256_bytes bytes == digest

  unfoldable pub verify_file : Desired → Artifact → Exec Managed Bool
  unfolding refuse_symlink read_bytes
  verify_file d a = do
    refuse_symlink
    current ← read_bytes
    pure (matches_digest d.payload.content_sha256 current)

  unfoldable pub rollback_file : Desired → Exec Managed (Unit {0})
  unfolding os_call replace_file
  rollback_file d w = roll_back_to w.previous w

  -- The adapter as the engine takes it.
  abbrev pub managed_file : Adapter Managed
  managed_file = record {
    preview = preview_file;
    apply = apply_file;
    verify = verify_file;
    rollback = rollback_file;
  }
