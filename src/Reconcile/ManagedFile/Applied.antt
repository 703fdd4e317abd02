-- ===== src/Reconcile/ManagedFile/Applied.antt =====
-- An apply of the adapter where every call of the operating system succeeds.
use anvil_events.Base.{ℕ, Option, none, some, List, [], ◌≡◌, refl, ap, ◌==◌, ◌%◌, nat_eq, string_eq}
use anvil_events.Result.{ok}
use anvil_events.Exec.{pure, attempt, ◌>>=◌}
use anvil_events.Json.{Codec}
use anvil_events.Reconcile.Desired.{Desired}
use anvil_events.Reconcile.Contracts.{Artifact}
use anvil_events.Reconcile.ManagedFile.{
  Entry, absent, file, symlink, Managed, Settings, chosen_mode, apply_file, verify_file,
}
use anvil_events.Reconcile.ManagedFile.Restore.{IsPlain, permissions}

-- The mode of the constructor if it has one, else the permissions of the file before, or 0o600 where there
-- was none.
abbrev pub final_mode : Option ℕ → Entry → ℕ
final_mode (some mode) e = mode
final_mode none (file bytes mode) = permissions mode
final_mode none e = 384

-- What an apply and a verify do where no call of the operating system fails.
pub record Replaces (codec : Codec) (settings : Settings) (d : Desired) (a : Artifact) (w : Managed)
    : Type 0 where
  pub after : Managed
  pub applies : apply_file codec settings d a w ≡ (ok tt, after)
  pub is_entry : after.destination ≡ file a.data_bytes (final_mode settings.mode w.destination)
  pub is_clean : after.temporary ≡ absent
  pub verifies :
      verify_file codec settings d a after
      ≡ (ok (codec.sha256_bytes a.data_bytes == d.payload.content_sha256), after)

new_mode : (m : Option ℕ) → chosen_mode m none ≡ final_mode m absent
new_mode none = refl
new_mode (some mode) = refl

kept_mode :
    (bytes : List ℕ) (mode : ℕ) (m : Option ℕ)
    → chosen_mode m (some (mode % 512)) ≡ final_mode m (file bytes mode)
kept_mode bytes mode none = refl
kept_mode bytes mode (some mode') = refl

replaces :
    (codec : Codec) (settings : Settings) (d : Desired) (a : Artifact) (e t : Entry)
    (p : Option (List ℕ)) (m : Option ℕ)
    → IsPlain e
    → settings.validator a.data_bytes ≡ ok tt
    → Replaces codec settings d a
        (record { destination = e; temporary = t; previous = p; previous_mode = m; verdicts = [] })
unfolding apply_file verify_file ◌>>=◌ pure attempt
replaces codec settings d a symlink t p m h v = elim h [ ]
replaces codec settings d a absent t p m h v = record {
  after = record {
    destination = file a.data_bytes (chosen_mode settings.mode none);
    temporary = absent;
    previous = none;
    previous_mode = none;
    verdicts = [];
  };
  applies = rw (apply_file, v) refl;
  is_entry = ap (file a.data_bytes) (new_mode settings.mode);
  is_clean = refl;
  verifies = refl;
}
replaces codec settings d a (file bytes mode) t p m h v = record {
  after = record {
    destination = file a.data_bytes (chosen_mode settings.mode (some (mode % 512)));
    temporary = absent;
    previous = some bytes;
    previous_mode = some (mode % 512);
    verdicts = [];
  };
  applies = rw (apply_file, v) refl;
  is_entry = ap (file a.data_bytes) (kept_mode bytes mode settings.mode);
  is_clean = refl;
  verifies = refl;
}

-- Where the destination is no link, the validator takes the bytes of the artifact, and no call of the operating
-- system fails, apply returns; it leaves no temporary file, and at the destination the artifact's bytes, with
-- the mode of the constructor if it has one, and else with the nine permission bits of the file before, or
-- with 0o600 where none of these bits was set or there was no file; and verify then answers whether the
-- digest of the bytes is that of the desired state.
pub apply_file-Replaces :
    (codec : Codec) (settings : Settings) (d : Desired) (a : Artifact) (w : Managed)
    → IsPlain w.destination
    → settings.validator a.data_bytes ≡ ok tt
    → Replaces codec settings d a (record w { verdicts = [] })
apply_file-Replaces codec settings d a w h v =
    replaces codec settings d a w.destination w.temporary w.previous w.previous_mode h v
