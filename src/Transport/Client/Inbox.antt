-- ===== src/Transport/Client/Inbox.antt =====
-- The subscriptions that a request leaves.
use anvil_events.Base.{
  ℕ, zero, suc, String, true, false, Option, none, some, some, List, [], ◌∷◌, ◌++◌, ◌≡◌, refl, ap,
  ◌∙◌, ◌==◌, string_eq, Bool-cases, inl, inr, beq_refl,
}
use anvil_events.Result.{Fault, Result, ok, err, Result-cases}
use anvil_events.Exec.{Exec, pure, attempt, continue, ◌>>=◌, ◌>>◌}
use anvil_events.Exec.Keeps.{Keeps, keeps_rules}
use anvil_events.Json.{Fields}
use anvil_events.Domain.Patterns.{codes}
use anvil_events.Transport.Wire.{encode_js_publish}
use anvil_events.Transport.Socket.{Message, Wire}
use anvil_events.Transport.Reader.{
  Texts, lift, send_as, send_bytes, sub_frame, add_subscription, subscribe_as, receive, subscribe,
  find_sid, validate_subject,
}
use anvil_events.Transport.Client.Calls.{IsSubscribed, lift-keeps, receive-keeps}
use anvil_events.Transport.Client.{
  Loaded, pop_sid, close_inbox, open_inbox, after_receive, await_reply, publish_js, checked_ack,
  hpub_frame, unsub_frame,
}

-- Popping the subject that was added last, where it was not there before.
pop-added :
    (s : String) (n : ℕ) (subs : List (String × ℕ))
    → find_sid s subs ≡ none
    → pop_sid s (subs ++ (s, n) ∷ []) ≡ subs
unfolding pop_sid find_sid
pop-added s n [] h = rw (beq_refl s) refl
pop-added s n ((t, k) ∷ subs) h = elim (Bool-cases (t == s)) [
  | inl e ↦ absurd (cc (rw e at h))
  | inr e ↦ rw (e, pop-added s n subs (rw e at h)) refl
]

-- What a step leaves where it returns, and where it raises.
abbrev Settled : {A : Type 0} → (Wire → Type 0) → (Wire → Type 0) → Result A → Wire → Type 0
Settled R Q (ok a) w = R w
Settled R Q (err e) w = Q w

record Moves {A : Type 0} (P R Q : Wire → Type 0) (m : Exec Wire A) : Type 0 where
  at : (w : Wire) → P w → Settled R Q (m w).0 (m w).1

module _ {A B : Type 0} {R S Q : Wire → Type 0} where
  Settled-continue :
      (r : Result A) (w : Wire) (f : A → Exec Wire B)
      → Settled R Q r w
      → ((a : A) → Moves R S Q (f a))
      → Settled S Q (continue r f w).0 (continue r f w).1
  Settled-continue (ok a) w f h k = (k a).at w h
  Settled-continue (err e) w f h k = h

module _ {A B : Type 0} {P R S Q : Wire → Type 0} where
  Moves-bind :
      (m : Exec Wire A) (f : A → Exec Wire B)
      → Moves P R Q m
      → ((a : A) → Moves R S Q (f a))
      → Moves P S Q (m >>= f)
  unfolding ◌>>=◌
  Moves-bind m f h k = record { at = λ w p. Settled-continue (m w).0 (m w).1 f (h.at w p) k }

module _ {A : Type 0} {P P' R Q : Wire → Type 0} where
  Moves-from : (m : Exec Wire A) → ((w : Wire) → P w → P' w) → Moves P' R Q m → Moves P R Q m
  Moves-from m f h = record { at = λ w p. h.at w (f w p) }

settled : {A : Type 0} (P : Wire → Type 0) (r : Result A) (w : Wire) → P w → Settled P P r w
settled P (ok a) w h = h
settled P (err e) w h = h

unsettled : {A : Type 0} (P : Wire → Type 0) (r : Result A) (w : Wire) → Settled P P r w → P w
unsettled P (ok a) w h = h
unsettled P (err e) w h = h

Moves-keeps : {A : Type 0} (P : Wire → Type 0) (m : Exec Wire A) → Keeps P m → Moves P P P m
Moves-keeps P m k = record { at = λ w h. settled P (m w).0 (m w).1 (k.at w h) }

lift-Moves :
    {A : Type 0} (P Q : Wire → Type 0) (r : Result A)
    → ((w : Wire) → P w → Q w)
    → Moves P P Q (lift r)
lift-Moves P Q (ok a) f = record { at = λ w h. h }
lift-Moves P Q (err e) f = record { at = λ w h. f w h }

-- The next calls of sendall succeed, as many as the number says.
abbrev pub CanSend : ℕ → List (Option Fault) → Type 0
CanSend zero vs = Unit {0}
CanSend (suc n) [] = Unit {0}
CanSend (suc n) (v ∷ vs) = (v ≡ none) × CanSend n vs

CanSend-nil : (n : ℕ) → CanSend n []
CanSend-nil zero = tt
CanSend-nil (suc n) = tt

-- The subscriptions, and the sends to come.
record Ready (subs : List (String × ℕ)) (n : ℕ) (w : Wire) : Type 0 where
  has : IsSubscribed subs w
  can : CanSend n w.verdicts

module _ (subs : List (String × ℕ)) (n : ℕ) (Q : Wire → Type 0) where
  sent-Settled :
      (vs : List (Option Fault)) (frame : List ℕ) (w : Wire)
      → IsSubscribed subs w
      → CanSend (suc n) vs
      → Settled (Ready subs n) Q (send_as vs frame w).0 (send_as vs frame w).1
  sent-Settled [] frame w h c = record { has = record { same = h.same }; can = CanSend-nil n }
  sent-Settled (none ∷ vs) frame w h c = record { has = record { same = h.same }; can = c.1 }
  sent-Settled (some e ∷ vs) frame w h c = absurd (cc (c.0))

  send-Moves : (frame : List ℕ) → Moves (Ready subs (suc n)) (Ready subs n) Q (send_bytes frame)
  unfolding send_bytes
  send-Moves frame = record { at = λ w h. sent-Settled w.verdicts frame w h.has h.can }

module _ (texts : Texts) (inbox : String) (subs : List (String × ℕ))
    (free : find_sid inbox subs ≡ none) where
  -- The inbox is open under a number.
  IsOpen : ℕ → Wire → Type 0
  IsOpen n = IsSubscribed (subs ++ (inbox, n) ∷ [])

  close-Moves :
      (n : ℕ) → Moves (IsOpen n) (IsSubscribed subs) (IsSubscribed subs) (close_inbox inbox)
  unfolding close_inbox IsOpen
  close-Moves n = record {
    at = λ w h. record { same = ap (pop_sid inbox) h.same ∙ pop-added inbox n subs free };
  }

  attempt-Moves :
      {A : Type 0} (n : ℕ) (m : Exec Wire A)
      → Keeps (IsOpen n) m
      → Moves (IsOpen n) (IsOpen n) (IsSubscribed subs) (attempt m)
  unfolding attempt
  attempt-Moves n m k = record { at = λ w h. k.at w h }

  after_receive-keeps :
      (loads : List ℕ → Loaded) (late : String) (r : Result (List Message))
      → Keeps (IsSubscribed subs) (after_receive texts loads late r)
  after_receive-keeps loads late (ok ms) = lift-keeps subs _
  after_receive-keeps loads late (err e) = search keeps_rules

  await-Moves :
      (loads : List ℕ → Loaded) (late : String) (ticks n : ℕ)
      → Moves
          (IsOpen n)
          (IsSubscribed subs)
          (IsSubscribed subs)
          (await_reply texts loads late inbox ticks)
  unfolding await_reply IsOpen
  await-Moves loads late ticks n =
      Moves-bind {R = IsOpen n} (attempt (receive texts 1 ticks (some inbox))) _
        (attempt-Moves n (receive texts 1 ticks (some inbox))
          (receive-keeps (subs ++ (inbox, n) ∷ []) texts 1 ticks (some inbox)))
        (λ received. Moves-bind {R = IsSubscribed subs} (close_inbox inbox) _ (close-Moves n) (λ u.
          Moves-keeps (IsSubscribed subs) (after_receive texts loads late received)
            (after_receive-keeps loads late received)))

  -- Before the inbox is open, and while it is and sends are to come.
  IsNext : ℕ → Wire → Type 0
  IsNext n w = Ready subs 3 w × (w.next_sid ≡ n)

  IsReady : ℕ → ℕ → Wire → Type 0
  IsReady k n = Ready (subs ++ (inbox, n) ∷ []) k

  add-Moves :
      (n : ℕ) (w : Wire)
      → IsNext n w
      → Settled
          (IsReady 2 n)
          (IsSubscribed subs)
          (subscribe_as inbox none w).0
          (subscribe_as inbox none w).1
  unfolding subscribe_as pure IsNext IsReady
  add-Moves n w h =
      let added : w.subscriptions ++ (inbox, w.next_sid) ∷ [] ≡ subs ++ (inbox, n) ∷ [] =
        cc (h.0.has.same, h.1) in
      let frame = sub_frame inbox w.next_sid in
      let moved =
        Moves-bind {R = IsReady 2 n} {Q = IsSubscribed subs} (send_bytes frame)
          (λ u. pure w.next_sid) (send-Moves (subs ++ (inbox, n) ∷ []) 2 (IsSubscribed subs) frame)
          (λ u. record { at = λ v k. k }) in
      moved.at (add_subscription inbox w) (record { has = record { same = added }; can = h.0.can })

  subscribe-Moves : (n : ℕ) → Moves (IsNext n) (IsReady 2 n) (IsSubscribed subs) (subscribe inbox)
  unfolding subscribe ◌>>=◌ IsNext
  subscribe-Moves n = record {
    at = λ w h. elim (Result-cases (validate_subject true (codes inbox))) [
      | inr (e, f) ↦ rw (subscribe, f, ◌>>=◌) h.0.has
      | inl (u, f) ↦
          let absent : find_sid inbox w.subscriptions ≡ none =
            ap (find_sid inbox) h.0.has.same ∙ free in
          rw (subscribe, f, absent, ◌>>=◌) (add-Moves n w h)
    ];
  }

  open_inbox-Moves : (n : ℕ) → Moves (IsNext n) (IsReady 1 n) (IsSubscribed subs) (open_inbox inbox)
  unfolding open_inbox IsReady
  open_inbox-Moves n =
      Moves-bind {R = IsReady 2 n} (subscribe inbox) (λ sid. send_bytes (unsub_frame sid))
        (subscribe-Moves n)
        (λ sid. send-Moves (subs ++ (inbox, n) ∷ []) 1 (IsSubscribed subs) (unsub_frame sid))

  ask-Moves :
      (loads : List ℕ → Loaded) (late : String) (ticks n : ℕ) (frame : List ℕ)
      (check : Fields → Result Fields)
      → Moves (IsReady 1 n) (IsSubscribed subs) (IsSubscribed subs) (
          send_bytes frame
          >> (await_reply texts loads late inbox ticks >>= λ reply. lift (check reply)))
  unfolding IsReady IsOpen
  ask-Moves loads late ticks n frame check =
      Moves-bind {R = IsReady 0 n} (send_bytes frame) _
        (send-Moves (subs ++ (inbox, n) ∷ []) 0 (IsSubscribed subs) frame)
        (λ u.
          Moves-from {P' = IsOpen n} _ (λ w h. h.has)
            (Moves-bind {R = IsSubscribed subs} (await_reply texts loads late inbox ticks) _
              (await-Moves loads late ticks n)
              (λ reply.
                Moves-keeps (IsSubscribed subs) (lift (check reply))
                  (lift-keeps subs (check reply)))))

  publish-Moves :
      (loads : List ℕ → Loaded) (subject payload msg_id : String) (ticks n : ℕ)
      → Moves
          (IsNext n)
          (IsSubscribed subs)
          (IsSubscribed subs)
          (publish_js texts loads inbox subject payload msg_id ticks)
  unfolding publish_js IsNext
  publish-Moves loads subject payload msg_id ticks n =
      let before : (w : Wire) → IsNext n w → IsSubscribed subs w = λ w h. h.0.has in
      Moves-bind {R = IsNext n} (lift (validate_subject false (codes subject))) _
        (lift-Moves (IsNext n) (IsSubscribed subs) (validate_subject false (codes subject)) before)
        (λ s.
          Moves-bind {R = IsNext n} (lift (encode_js_publish payload msg_id)) _
            (lift-Moves (IsNext n) (IsSubscribed subs) (encode_js_publish payload msg_id) before)
            (λ encoded. Moves-bind {R = IsReady 1 n} (open_inbox inbox) _ (open_inbox-Moves n) (λ u.
              ask-Moves loads "JetStream PubAck timed out" ticks n
                (hpub_frame subject inbox encoded.1 encoded.0) checked_ack)))

-- No inbox is left behind: where the inbox is not subscribed before publish_js, and the first three calls of
-- sendall succeed, which send SUB, UNSUB and the message, then after it, whether it returns the
-- acknowledgement or raises, and whatever the server sends or the socket does from then on, the
-- subscriptions are those before.
pub publish_js-IsSubscribed :
    (texts : Texts) (loads : List ℕ → Loaded) (inbox subject payload msg_id : String) (ticks : ℕ)
    (w : Wire)
    → find_sid inbox w.subscriptions ≡ none
    → CanSend 3 w.verdicts
    → (publish_js texts loads inbox subject payload msg_id ticks w).1.subscriptions
      ≡ w.subscriptions
unfolding IsNext
publish_js-IsSubscribed texts loads inbox subject payload msg_id ticks w free can =
    let subs = w.subscriptions in
    let done = publish_js texts loads inbox subject payload msg_id ticks w in
    let start : Ready subs 3 w = record { has = record { same = refl }; can = can } in
    let moved = publish-Moves texts inbox subs free loads subject payload msg_id ticks w.next_sid in
    (unsettled (IsSubscribed subs) done.0 done.1 (moved.at w (start, refl))).same
