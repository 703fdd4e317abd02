-- ===== src/Reconcile/ManagedFile/Restore.antt =====
-- What a rollback makes of what an apply left.
use anvil_events.Base.{
  ℕ, Option, none, some, List, ◌≡◌, refl, sym, ◌∙◌, ap, subst, ◌==◌, ◌%◌, if◌then◌else◌, nat_eq,
  string_eq,
}
use anvil_events.Result.{Fault, Result, ok, err}
use anvil_events.Exec.{◌>>◌}
use anvil_events.Exec.Keeps.{Post, Returns, Returns-bind, Returns-then}
use anvil_events.Json.{Codec}
use anvil_events.Reconcile.Desired.{Desired}
use anvil_events.Reconcile.Contracts.{Artifact}
use anvil_events.Reconcile.ManagedFile.{
  Entry, absent, file, symlink, Managed, Settings, os_call, write, checked, refuse_link,
  refuse_symlink, read_bytes, contents, mode_of, mode_or, chosen_mode, replace_file, replace_by,
  remember_mode, remember, apply_file, rollback_file, unlink_destination, roll_back_to,
}
use anvil_events.Reconcile.ManagedFile.Steps.{At, os_call-At, os_call-then, replace_file-At}

no_mode : (e : Entry) → contents e ≡ none → mode_of e ≡ none
no_mode absent h = refl
no_mode symlink h = refl
no_mode (file bytes mode) h = absurd (cc h)

module _ (e : Entry) (p : Option (List ℕ)) (m : Option ℕ) where
  abbrev IsRead : Option (List ℕ) → Managed → Type 0
  IsRead o w = (o ≡ contents e) × At e p m w

  read_bytes-IsRead : Returns (At e p m) read_bytes IsRead
  unfolding read_bytes
  read_bytes-IsRead =
      Returns-bind {R = λ u. At e p m} os_call (λ u w. (ok (contents w.destination), w)) os_call-At
        (λ u. record { at = λ w h. (ap contents h.is_entry, h) })

  previous-At :
      (bytes : List ℕ)
      → Returns
          (At e p m)
          (write (λ w. record w { previous = some bytes }))
          (λ u. At e (some bytes) m)
  previous-At bytes = record {
    at = λ w h. record { is_entry = h.is_entry; is_previous = refl; is_mode = h.is_mode };
  }

  mode-At :
      (bytes : List ℕ)
      → contents e ≡ some bytes
      → Returns
          (At e (some bytes) m)
          (write (λ w. record w { previous_mode = mode_of w.destination }))
          (λ u. At e (contents e) (mode_of e))
  mode-At bytes same = record {
    at = λ w h. record {
      is_entry = h.is_entry;
      is_previous = h.is_previous ∙ sym same;
      is_mode = ap mode_of h.is_entry;
    };
  }

  remember_mode-At :
      (o : Option (List ℕ))
      → Returns (IsRead o) (remember_mode o) (λ u. At e (contents e) (mode_of e))
  remember_mode-At none = record {
    at = λ w h. record {
      is_entry = h.1.is_entry;
      is_previous = h.0;
      is_mode = sym (no_mode e (sym h.0));
    };
  }
  remember_mode-At (some bytes) = record {
    at = λ w h.
        let last = write (λ (w : Managed). record w { previous_mode = mode_of w.destination }) in
        let steps =
          Returns-bind (write (λ (w : Managed). record w { previous = some bytes }))
            (λ u. os_call >> last) (previous-At bytes)
            (λ u. os_call-then last (mode-At bytes (sym h.0))) in
        steps.at w h.1;
  }

  remember-At : Returns (At e p m) remember (λ u. At e (contents e) (mode_of e))
  unfolding remember
  remember-At = Returns-bind read_bytes remember_mode read_bytes-IsRead remember_mode-At

  checked-At : (r : Result (Unit {0})) → Returns (At e p m) (checked r) (λ u. At e p m)
  checked-At (ok u) = record { at = λ w h. h }
  checked-At (err f) = record { at = λ w h. tt }

  refuse-At : Returns (At e p m) refuse_symlink (λ u. At e p m)
  unfolding refuse_symlink
  refuse-At = record { at = λ w h. (checked-At (refuse_link w.destination)).at w h }

  replace_by-At :
      (mode : Option ℕ) (bytes : List ℕ)
      → Returns (At e p m) (replace_by mode bytes) (λ u. At (file bytes (chosen_mode mode m)) p m)
  unfolding replace_by
  replace_by-At mode bytes = record {
    at = λ w h.
        let mode' = chosen_mode mode w.previous_mode in
        subst
          (λ pm. Post (λ u. At (file bytes (chosen_mode mode pm)) p m) (replace_file bytes mode' w))
          h.is_mode ((replace_file-At bytes mode').at w h);
  }

-- After an apply that returned: the destination has the new bytes, and the adapter remembers the old entry.
apply_file-At :
    (codec : Codec) (settings : Settings) (d : Desired) (a : Artifact) (e : Entry)
    (p : Option (List ℕ)) (m : Option ℕ)
    → Returns (At e p m) (apply_file codec settings d a) (λ u.
      At (file a.data_bytes (chosen_mode settings.mode (mode_of e))) (contents e) (mode_of e))
unfolding apply_file
apply_file-At codec settings d a e p m =
    Returns-bind (checked (settings.validator a.data_bytes)) _
      (checked-At e p m (settings.validator a.data_bytes))
      (λ u. Returns-bind refuse_symlink _ (refuse-At e p m) (λ u. os_call-then _ (
        Returns-bind remember _ (remember-At e p m)
          (λ u. replace_by-At e (contents e) (mode_of e) settings.mode a.data_bytes))))

abbrev pub IsPlain : Entry → Type 0
IsPlain symlink = ⊥
IsPlain _ = Unit {0}

-- The permissions of a file with a mode: its nine permission bits, or 0o600 where it has none of them.
abbrev pub permissions : ℕ → ℕ
permissions mode = if mode % 512 == 0 then 384 else mode % 512

-- The entry with no more of its mode than the permissions.
abbrev pub restored : Entry → Entry
restored (file bytes mode) = file bytes (permissions mode)
restored e = e

abbrev Leads : Entry → Unit {0} → Managed → Type 0
Leads e u w = w.destination ≡ e

gone-Leads :
    {P : Managed → Type 0}
    → Returns P (write (λ w. record w { destination = absent })) (Leads absent)
gone-Leads = record { at = λ w h. refl }

unlink-Leads :
    (e : Entry) (w : Managed) → w.destination ≡ e → Post (Leads absent) (unlink_destination e w)
unlink-Leads absent w h = h
unlink-Leads (file bytes mode) w h = (unlinked w).at w tt
  where
    unlinked :
        (w : Managed)
        → Returns
            (λ w. Unit {0})
            (os_call >> write (λ w. record w { destination = absent }))
            (Leads absent)
    unlinked w = Returns-then os_call _ (λ u. gone-Leads)
unlink-Leads symlink w h = (unlinked w).at w tt
  where
    unlinked :
        (w : Managed)
        → Returns
            (λ w. Unit {0})
            (os_call >> write (λ w. record w { destination = absent }))
            (Leads absent)
    unlinked w = Returns-then os_call _ (λ u. gone-Leads)

Post-imp :
    {P Q : Unit {0} → Managed → Type 0} (r : Result (Unit {0})) (w : Managed)
    → ((u : Unit {0}) (w : Managed) → P u w → Q u w)
    → Post P (r, w)
    → Post Q (r, w)
Post-imp (ok u) w f h = f u w h
Post-imp (err e) w f h = tt

roll-Leads :
    (e : Entry) (o : Option (List ℕ)) (w : Managed)
    → IsPlain e
    → o ≡ contents e
    → w.previous_mode ≡ mode_of e
    → Post (Leads (restored e)) (roll_back_to o w)
roll-Leads absent none w h p m = unlink-Leads w.destination w refl
roll-Leads absent (some bytes) w h p m = absurd (cc p)
roll-Leads (file bytes mode) none w h p m = absurd (cc p)
roll-Leads (file bytes mode) (some old) w h p m =
    let mode' = mode_or w.previous_mode in
    let start : At w.destination w.previous w.previous_mode w = record {
      is_entry = refl;
      is_previous = refl;
      is_mode = refl;
    } in
    let same : old ≡ bytes = cc p in
    let chosen : mode' ≡ permissions mode = ap mode_or m in
    let done = (replace_file-At old mode').at w start in
    Post-imp (replace_file old mode' w).0 (replace_file old mode' w).1
      (λ u v k. k.is_entry ∙ cc (same, chosen)) done
roll-Leads symlink o w h p m = elim h [ ]

-- Where the destination was no link, and apply returned, then whatever happens to the destination and
-- whatever calls of the operating system fail afterwards, a rollback that returns leaves at the destination
-- what was there before the apply: no file, or a file with the same bytes and the same nine permission
-- bits, or with the mode 0o600 where none of these bits was set.
pub rollback-restores :
    (codec : Codec) (settings : Settings) (d : Desired) (a : Artifact) (w w1 w2 : Managed)
    (e : Entry) (vs : List (Option Fault))
    → IsPlain w.destination
    → apply_file codec settings d a w ≡ (ok tt, w1)
    → rollback_file codec settings d (record w1 { destination = e; verdicts = vs }) ≡ (ok tt, w2)
    → w2.destination ≡ restored w.destination
unfolding rollback_file
rollback-restores codec settings d a w w1 w2 e vs h applied rolled =
    let start : At w.destination w.previous w.previous_mode w = record {
      is_entry = refl;
      is_previous = refl;
      is_mode = refl;
    } in
    let posted =
      (apply_file-At codec settings d a w.destination w.previous w.previous_mode).at w start in
    let after : At (file a.data_bytes (chosen_mode settings.mode (mode_of w.destination)))
        (contents w.destination) (mode_of w.destination) w1 =
      subst
        (Post (λ u.
          At (file a.data_bytes (chosen_mode settings.mode (mode_of w.destination)))
            (contents w.destination) (mode_of w.destination)))
        applied posted in
    let w' = record w1 { destination = e; verdicts = vs } in
    subst (Post (Leads (restored w.destination))) rolled
      (roll-Leads w.destination w1.previous w' h after.is_previous after.is_mode)
