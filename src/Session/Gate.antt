-- ===== src/Session/Gate.antt =====
-- session.rs: `HostKeyGate` and `Session::confirm_host_key`, which share one slot for a decision.
pub mod Order
use research_ssh_next.Prelude.{
  ℕ, Text, Bool, true, false, List, [], ◌∷◌, ◌++◌, length, Option, none, some,
}
use research_ssh_next.Event.{SessionEvent}

-- The slot holds the sender of one `confirm`, named by the number of prompts before its own. The
-- gate has emitted `prompts`, and each `confirm` in `answers` returned the Boolean beside it.
pub record Gate : Type 0 where
  pub pending : Option ℕ
  pub prompts : List SessionEvent
  pub answers : List (ℕ × Bool)

abbrev pub new_gate : Gate
new_gate = record { pending = none; prompts = []; answers = [] }

-- A sender that is dropped makes its `confirm` return false.
unfoldable pub drop_sender : Option ℕ → List (ℕ × Bool) → List (ℕ × Bool)
drop_sender none answers = answers
drop_sender (some t) answers = answers ++ (t, false) ∷ []

-- `confirm` up to its await: the new sender replaces what the slot held, and the prompt is emitted.
unfoldable pub confirm : Text → Gate → Gate
unfolding drop_sender
confirm fingerprint g = record {
  pending = some (length g.prompts);
  prompts = g.prompts ++ SessionEvent.host_key_prompt fingerprint ∷ [];
  answers = drop_sender g.pending g.answers;
}

unfoldable pub send_decision : Bool → Option ℕ → List (ℕ × Bool) → List (ℕ × Bool)
send_decision accept none answers = answers
send_decision accept (some t) answers = answers ++ (t, accept) ∷ []

-- `confirm_host_key`
unfoldable pub confirm_host_key : Bool → Gate → Gate
unfolding send_decision
confirm_host_key accept g = record g {
  pending = none;
  answers = send_decision accept g.pending g.answers;
}

pub data GateInput : Type 0 where
  ask : Text → GateInput
  decide : Bool → GateInput

unfoldable pub run_gate : List GateInput → Gate → Gate
unfolding confirm confirm_host_key
run_gate [] g = g
run_gate (GateInput.ask fingerprint ∷ is) g = run_gate is (confirm fingerprint g)
run_gate (GateInput.decide accept ∷ is) g = run_gate is (confirm_host_key accept g)
