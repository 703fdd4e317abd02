-- ===== src/Transport/Reader/Subscriptions.antt =====
-- The numbers that `subscribe` gives.
use anvil_events.Base.{
  ℕ, ◌+◌, ◌<◌, String, true, Option, none, some, List, [], ◌∷◌, ◌++◌, ◌≡◌, refl, sym, ap, ◌∙◌, ◌==◌,
  string_eq, if◌then◌else◌, arith, Bool-cases, Option-cases, inl, inr, beq_refl, eq_of_beq, ◌⊎◌,
}
use anvil_events.Result.{Fault, ok, Result-cases}
use anvil_events.Exec.{pure, ◌>>=◌, ◌>>◌}
use anvil_events.Domain.Patterns.{codes}
use anvil_events.Transport.Socket.{Wire}
use anvil_events.Transport.Reader.{
  send_as, send_bytes, add_subscription, subscribe, subscribe_as, find_sid, validate_subject,
  sub_frame,
}

-- Each number is below the next one, and belongs to one subject.
pub record IsNumbered (w : Wire) : Type 0 where
  pub is_below : (s : String) (n : ℕ) → find_sid s w.subscriptions ≡ some n → n < w.next_sid
  pub is_unique :
      (s t : String) (n : ℕ)
      → find_sid s w.subscriptions ≡ some n
      → find_sid t w.subscriptions ≡ some n
      → s ≡ t

found_before :
    (s t : String) (n m : ℕ) (l : List (String × ℕ))
    → find_sid s l ≡ some m
    → find_sid s (l ++ (t, n) ∷ []) ≡ some m
unfolding find_sid
found_before s t n m [] h = absurd (cc h)
found_before s t n m ((u, k) ∷ l) h = ground (arith, h, found_before s t n m l)

found_after :
    (s t : String) (n : ℕ) (l : List (String × ℕ))
    → find_sid s l ≡ none
    → find_sid s (l ++ (t, n) ∷ []) ≡ (if t == s then some n else none)
unfolding find_sid
found_after s t n [] h = refl
found_after s t n ((u, k) ∷ l) h = ground (arith, h, found_after s t n l)

-- What is found after a new subject was added.
found_cases :
    (s t : String) (n m : ℕ) (l : List (String × ℕ))
    → find_sid s (l ++ (t, n) ∷ []) ≡ some m
    → (find_sid s l ≡ some m) ⊎ ((t ≡ s) × (n ≡ m))
found_cases s t n m l h = elim (Option-cases (find_sid s l)) [
  | inr (k, e) ↦ inl (e ∙ sym (found_before s t n k l e) ∙ h)
  | inl e ↦ elim (Bool-cases (t == s)) [
    | inl f ↦
        let same = sym (found_after s t n l e) ∙ h in
        let number : n ≡ m = cc (rw f at same) in inr (eq_of_beq t s f, number)
    | inr f ↦ let same = sym (found_after s t n l e) ∙ h in absurd (cc (rw f at same))
  ]
]

-- After a call of subscribe that returned.
pub record Subscribed (s : String) (w : Wire) (sid : ℕ) (w' : Wire) : Type 0 where
  pub is_numbered : IsNumbered w'
  pub again : subscribe s w' ≡ (ok sid, w')
  pub keeps :
      (t : String) (n : ℕ)
      → find_sid t w.subscriptions ≡ some n
      → find_sid t w'.subscriptions ≡ some n
  pub writes : (w'.sent ≡ w.sent) ⊎ (w'.sent ≡ w.sent ++ sub_frame s sid ∷ [])

add-IsNumbered :
    (s : String) (w w' : Wire)
    → find_sid s w.subscriptions ≡ none
    → w'.subscriptions ≡ w.subscriptions ++ (s, w.next_sid) ∷ []
    → w'.next_sid ≡ w.next_sid + 1
    → IsNumbered w
    → IsNumbered w'
add-IsNumbered s w w' free subs next h =
    let cases = λ (t : String) (n : ℕ) (f : find_sid t w'.subscriptions ≡ some n).
      found_cases t s w.next_sid n w.subscriptions (ap (find_sid t) (sym subs) ∙ f) in
    record {
      is_below = λ t n f. elim (cases t n f) [
        | inl e ↦ omega (arith, next, h.is_below t n e)
        | inr (e, k) ↦ omega (arith, next, k)
      ];
      is_unique = λ t u n f g. elim (cases t n f) [
        | inl e ↦ elim (cases u n g) [
          | inl e' ↦ h.is_unique t u n e e'
          | inr (e', k) ↦ absurd (omega (arith, h.is_below t n e, k))
        ]
        | inr (e, k) ↦ elim (cases u n g) [
          | inl e' ↦ absurd (omega (arith, h.is_below u n e', k))
          | inr (e', k') ↦ sym e ∙ e'
        ]
      ];
    }

-- The call that adds the subject, by what its send did.
Settles : String → Wire → Wire → ℕ → Wire → Type 0
Settles s w added sid w' =
    (w.next_sid ≡ sid)
    × ((w'.subscriptions ≡ added.subscriptions)
        × ((w'.next_sid ≡ added.next_sid) × (w'.sent ≡ w.sent ++ sub_frame s w.next_sid ∷ [])))

added-Settles :
    (s : String) (vs : List (Option Fault)) (w w' : Wire) (sid : ℕ)
    → (send_as vs (sub_frame s w.next_sid) >> pure w.next_sid) (add_subscription s w) ≡ (ok sid, w')
    → Settles s w (add_subscription s w) sid w'
unfolding ◌>>=◌ pure Settles
added-Settles s [] w w' sid h =
    let same = ap (λ p. p.1) h in
    (
      cc h,
      (
        ap (λ v. v.subscriptions) (sym same),
        (ap (λ v. v.next_sid) (sym same), ap (λ v. v.sent) (sym same)),
      ),
    )
added-Settles s (none ∷ vs) w w' sid h =
    let same = ap (λ p. p.1) h in
    (
      cc h,
      (
        ap (λ v. v.subscriptions) (sym same),
        (ap (λ v. v.next_sid) (sym same), ap (λ v. v.sent) (sym same)),
      ),
    )
added-Settles s (some e ∷ vs) w w' sid h = absurd (cc h)

added-Subscribed :
    (s : String) (w w' : Wire) (sid : ℕ) {u : List ℕ}
    → validate_subject true (codes s) ≡ ok u
    → find_sid s w.subscriptions ≡ none
    → IsNumbered w
    → subscribe_as s none w ≡ (ok sid, w')
    → Subscribed s w sid w'
unfolding subscribe ◌>>=◌ send_bytes subscribe_as Settles
added-Subscribed s w w' sid f g h run =
    let (number, (subs, (next, sent))) = added-Settles s w.verdicts w w' sid run in
    let found : find_sid s w'.subscriptions ≡ some sid =
      ap (find_sid s) subs
      ∙ found_after s s w.next_sid w.subscriptions g
      ∙ rw (beq_refl s) (ap some number) in
    record {
      is_numbered = add-IsNumbered s w w' g subs next h;
      again = rw (subscribe, f, ◌>>=◌, found) refl;
      keeps = λ t k e. ap (find_sid t) subs ∙ found_before t s w.next_sid k w.subscriptions e;
      writes = inr (sent ∙ ap (λ n. w.sent ++ sub_frame s n ∷ []) number);
    }

-- Subscriptions are numbered apart: where each number is below the next one and belongs to one subject, and
-- subscribe returns a number, it leaves such a wire, with the numbers of all subjects as they were; it has
-- sent nothing or the one SUB frame of the subject and the number, and the same call once more returns the
-- number and changes nothing.
pub subscribe-Subscribed :
    (s : String) (w w' : Wire) (sid : ℕ)
    → IsNumbered w
    → subscribe s w ≡ (ok sid, w')
    → Subscribed s w sid w'
unfolding subscribe ◌>>=◌
subscribe-Subscribed s w w' sid h run = elim (Result-cases (validate_subject true (codes s))) [
  | inr (e, f) ↦ absurd (cc (rw (subscribe, f, ◌>>=◌) at run))
  | inl (u, f) ↦ elim (Option-cases (find_sid s w.subscriptions)) [
    | inr (n, g) ↦
        let same : w ≡ w' = ap (λ p. p.1) (rw (subscribe, f, ◌>>=◌, g) at run) in
        let number : n ≡ sid = cc (rw (subscribe, f, ◌>>=◌, g) at run) in
        rw (← same) (record {
          is_numbered = h;
          again = rw (subscribe, f, ◌>>=◌, g, number) refl;
          keeps = λ t k e. e;
          writes = inl refl;
        })
    | inl g ↦
        let called : subscribe_as s none w ≡ (ok sid, w') = rw (subscribe, f, ◌>>=◌, g) at run in
        added-Subscribed s w w' sid f g h called
  ]
]
