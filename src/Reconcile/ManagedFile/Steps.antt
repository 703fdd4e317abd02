-- ===== src/Reconcile/ManagedFile/Steps.antt =====
-- What each step of the adapter leaves, where it returns.
use anvil_events.Base.{ℕ, Option, none, some, List, [], ◌∷◌, ◌≡◌, refl, nat_eq, string_eq}
use anvil_events.Result.{Fault, Result, ok, err}
use anvil_events.Exec.{Exec, attempt, ◌>>◌}
use anvil_events.Exec.Keeps.{Post, Returns, Returns-bind, Returns-pure, Returns-raise, Returns-then}
use anvil_events.Reconcile.ManagedFile.{
  Entry, absent, file, Managed, os_call, judged, write, make_temporary, install, unlink_temporary,
  after_install, replace_file,
}

-- The destination, and what the adapter remembers.
pub record At (e : Entry) (bytes : Option (List ℕ)) (mode : Option ℕ) (w : Managed) : Type 0 where
  pub is_entry : w.destination ≡ e
  pub is_previous : w.previous ≡ bytes
  pub is_mode : w.previous_mode ≡ mode

module _ {e : Entry} {p : Option (List ℕ)} {m : Option ℕ} where
  judged-At :
      (vs : List (Option Fault)) (w : Managed) → At e p m w → Post (λ u. At e p m) (judged vs w)
  judged-At [] w h = h
  judged-At (none ∷ vs) w h = record {
    is_entry = h.is_entry;
    is_previous = h.is_previous;
    is_mode = h.is_mode;
  }
  judged-At (some f ∷ vs) w h = tt

  pub os_call-At : Returns (At e p m) os_call (λ u. At e p m)
  unfolding os_call
  os_call-At = record { at = λ w h. judged-At w.verdicts w h }

  temporary-At :
      (t : Entry) → Returns (At e p m) (write (λ w. record w { temporary = t })) (λ u. At e p m)
  temporary-At t = record {
    at = λ w h. record { is_entry = h.is_entry; is_previous = h.is_previous; is_mode = h.is_mode };
  }

  new-At :
      (bytes : List ℕ) (mode : ℕ)
      → Returns
          (At e p m)
          (write (λ w. record w { temporary = absent; destination = file bytes mode }))
          (λ u. At (file bytes mode) p m)
  new-At bytes mode = record {
    at = λ w h. record { is_entry = refl; is_previous = h.is_previous; is_mode = h.is_mode };
  }

-- The same before a rest.
module _ {e : Entry} {p : Option (List ℕ)} {m : Option ℕ} {Q : Unit {0} → Managed → Type 0} where
  pub os_call-then :
      (rest : Exec Managed (Unit {0}))
      → Returns (At e p m) rest Q
      → Returns (At e p m) (os_call >> rest) Q
  os_call-then rest h = Returns-bind {R = λ u. At e p m} os_call (λ u. rest) os_call-At (λ u. h)

  temporary-then :
      (t : Entry) (rest : Exec Managed (Unit {0}))
      → Returns (At e p m) rest Q
      → Returns (At e p m) (write (λ w. record w { temporary = t }) >> rest) Q
  temporary-then t rest h =
      Returns-bind {R = λ u. At e p m} (write (λ w. record w { temporary = t })) (λ u. rest)
        (temporary-At t) (λ u. h)

  new-then :
      (bytes : List ℕ) (mode : ℕ) (rest : Exec Managed (Unit {0}))
      → Returns (At (file bytes mode) p m) rest Q
      → Returns
          (At e p m)
          (write (λ w. record w { temporary = absent; destination = file bytes mode }) >> rest)
          Q
  new-then bytes mode rest h =
      Returns-bind {R = λ u. At (file bytes mode) p m}
        (write (λ w. record w { temporary = absent; destination = file bytes mode })) (λ u. rest)
        (new-At bytes mode) (λ u. h)

ruleset at_rules = (os_call-then, temporary-then, new-then, os_call-At, temporary-At, new-At)

-- What an attempt returned, where it returned.
abbrev Ended : (Managed → Type 0) → Result (Unit {0}) → Managed → Type 0
Ended Q (ok u) = Q
Ended Q (err e) = λ w. Unit

ended :
    (Q : Managed → Type 0) (r : Result (Unit {0})) (w : Managed)
    → Post (λ u. Q) (r, w)
    → Ended Q r w
ended Q (ok u) w h = h
ended Q (err e) w h = tt

Returns-ended :
    {P Q : Managed → Type 0} (m : Exec Managed (Unit {0}))
    → Returns P m (λ u. Q)
    → Returns P (attempt m) (Ended Q)
unfolding attempt
Returns-ended {P} {Q} m h = record { at = λ w p. ended Q (m w).0 (m w).1 (h.at w p) }

module _ {p : Option (List ℕ)} {m : Option ℕ} where
  after_install-At :
      (f : Entry) (r : Result (Unit {0}))
      → Returns (Ended (At f p m) r) (after_install r) (λ u. At f p m)
  after_install-At f (ok u) = Returns-pure u (λ w h. h)
  after_install-At f (err g) = Returns-then unlink_temporary _ (λ u. Returns-raise g)

module _ {e : Entry} {p : Option (List ℕ)} {m : Option ℕ} where
  make_temporary-At : Returns (At e p m) make_temporary (λ u. At e p m)
  unfolding make_temporary
  make_temporary-At = search at_rules

module _ {e : Entry} {p : Option (List ℕ)} {m : Option ℕ} (bytes : List ℕ) (mode : ℕ) where
  install-At : Returns (At e p m) (install bytes mode) (λ u. At (file bytes mode) p m)
  unfolding install
  install-At = search at_rules depth 14

  pub replace_file-At : Returns (At e p m) (replace_file bytes mode) (λ u. At (file bytes mode) p m)
  unfolding replace_file
  replace_file-At = Returns-bind make_temporary _ make_temporary-At (λ u.
      Returns-bind (attempt (install bytes mode)) _ (Returns-ended (install bytes mode) install-At)
        (after_install-At (file bytes mode)))
