-- ===== src/Session/Gate/Order.antt =====
-- session.rs: the order in which host-key prompts are answered, and by whom.
use research_ssh_next.Prelude.{
  ℕ, ◌+◌, ◌≤◌, Text, Bool, false, List, [], ◌∷◌, ◌++◌, length, length-append, Option, none, some,
  ◌≡◌, refl, arith, if◌then◌else◌,
}
use research_ssh_next.Event.{SessionEvent}
use research_ssh_next.Session.Gate.{
  Gate, new_gate, drop_sender, confirm, send_decision, confirm_host_key, GateInput, run_gate,
}

-- The answers go to the prompts `k`, `k + 1`, … in this order.
abbrev pub Numbered : ℕ → List (ℕ × Bool) → Type 0
Numbered k [] = Unit
Numbered k ((t, b) ∷ rest) = (t ≡ k) × Numbered (k + 1) rest

abbrev pub accepts : List (ℕ × Bool) → ℕ
accepts [] = 0
accepts ((t, b) ∷ rest) = (if b then 1 else 0) + accepts rest

-- How many decisions of the user accept.
abbrev pub decisions : List GateInput → ℕ
decisions [] = 0
decisions (GateInput.ask f ∷ is) = decisions is
decisions (GateInput.decide b ∷ is) = (if b then 1 else 0) + decisions is

-- All prompts are answered, but for the last one where the slot is full.
abbrev pub Answered : Option ℕ → ℕ → ℕ → Type 0
Answered none asked answered = asked ≡ answered
Answered (some t) asked answered = (t ≡ answered) × (asked ≡ answered + 1)

abbrev pub InOrder : Gate → Type 0
InOrder g = Numbered 0 g.answers × Answered g.pending (length g.prompts) (length g.answers)

Numbered-append :
    (k : ℕ) (xs : List (ℕ × Bool)) (b : Bool) (t : ℕ)
    → Numbered k xs
    → t ≡ length xs + k
    → Numbered k (xs ++ (t, b) ∷ [])
Numbered-append k [] b t h e = (omega (arith, e), tt)
Numbered-append k ((u, c) ∷ xs) b t h e =
    (h.0, Numbered-append (k + 1) xs b t h.1 (omega (arith, e)))

accepts-append :
    (xs : List (ℕ × Bool)) (t : ℕ) (b : Bool)
    → accepts (xs ++ (t, b) ∷ []) ≡ accepts xs + (if b then 1 else 0)
accepts-append [] t b = omega arith
accepts-append ((u, c) ∷ xs) t b = omega (arith, accepts-append xs t b)

length-snoc {ℓ} : {A : Type ℓ} → (xs : List A) (x : A) → length (xs ++ x ∷ []) ≡ length xs + 1
length-snoc xs x = omega (arith, length-append xs (x ∷ []))

-- A full slot is emptied by an answer to its prompt.
drop_sender-Numbered :
    (p : Option ℕ) (asked : ℕ) (xs : List (ℕ × Bool))
    → Numbered 0 xs
    → Answered p asked (length xs)
    → Numbered 0 (drop_sender p xs) × (asked ≡ length (drop_sender p xs))
unfolding drop_sender
drop_sender-Numbered none asked xs h e = (h, e)
drop_sender-Numbered (some t) asked xs h e = (
  Numbered-append 0 xs false t h (omega (arith, e.0)),
  omega (arith, e.1, length-snoc xs (t, false)),
)

send_decision-Numbered :
    (accept : Bool) (p : Option ℕ) (asked : ℕ) (xs : List (ℕ × Bool))
    → Numbered 0 xs
    → Answered p asked (length xs)
    → Numbered 0 (send_decision accept p xs) × (asked ≡ length (send_decision accept p xs))
unfolding send_decision
send_decision-Numbered accept none asked xs h e = (h, e)
send_decision-Numbered accept (some t) asked xs h e = (
  Numbered-append 0 xs accept t h (omega (arith, e.0)),
  omega (arith, e.1, length-snoc xs (t, accept)),
)

confirm-InOrder : (fingerprint : Text) (g : Gate) → InOrder g → InOrder (confirm fingerprint g)
unfolding confirm
confirm-InOrder fingerprint g h =
    let dropped = drop_sender-Numbered g.pending (length g.prompts) g.answers h.0 h.1 in
    let more = length-snoc g.prompts (SessionEvent.host_key_prompt fingerprint) in
    (dropped.0, (dropped.1, omega (arith, dropped.1, more)))

confirm_host_key-InOrder :
    (accept : Bool) (g : Gate) → InOrder g → InOrder (confirm_host_key accept g)
unfolding confirm_host_key
confirm_host_key-InOrder accept g h =
    send_decision-Numbered accept g.pending (length g.prompts) g.answers h.0 h.1

accepts-drop_sender :
    (p : Option ℕ) (xs : List (ℕ × Bool)) → accepts (drop_sender p xs) ≡ accepts xs
unfolding drop_sender
accepts-drop_sender none xs = refl
accepts-drop_sender (some t) xs = omega (arith, accepts-append xs t false)

accepts-send_decision :
    (accept : Bool) (p : Option ℕ) (xs : List (ℕ × Bool))
    → accepts (send_decision accept p xs) ≤ accepts xs + (if accept then 1 else 0)
unfolding send_decision
accepts-send_decision accept none xs = omega arith
accepts-send_decision accept (some t) xs = omega (arith, accepts-append xs t accept)

run_gate-both :
    (is : List GateInput) (g : Gate)
    → InOrder g
    → InOrder (run_gate is g) × (accepts (run_gate is g).answers ≤ accepts g.answers + decisions is)
unfolding run_gate confirm confirm_host_key
run_gate-both [] g h = (h, omega arith)
run_gate-both (GateInput.ask f ∷ is) g h =
    let rest = run_gate-both is (confirm f g) (confirm-InOrder f g h) in
    (rest.0, omega (arith, rest.1, accepts-drop_sender g.pending g.answers))
run_gate-both (GateInput.decide b ∷ is) g h =
    let rest = run_gate-both is (confirm_host_key b g) (confirm_host_key-InOrder b g h) in
    (rest.0, omega (arith, rest.1, accepts-send_decision b g.pending g.answers))

-- Over any prompts and decisions, the prompts are answered one after the other, each at most once,
-- and all but the last where it waits; and no more of them are accepted than the user accepted.
pub run_gate-InOrder :
    (is : List GateInput)
    → InOrder (run_gate is new_gate) × (accepts (run_gate is new_gate).answers ≤ decisions is)
run_gate-InOrder is =
    let both = run_gate-both is new_gate (tt, refl) in (both.0, omega (arith, both.1))
