-- ===== src/System.antt =====
-- ffi.rs with session.rs: a session as the C side drives it, the handle beside its driver.
pub mod Ledger
pub mod InStep
pub mod Delivered
pub mod Answered
pub mod Terminal
pub mod Saved
use research_ssh_next.Prelude.{
  ℕ, ◌+◌, true, Bytes, Text, List, [], ◌∷◌, ◌++◌, Option, none, some, get_elem?,
}
use research_ssh_next.Core.{RsErrorCode}
use research_ssh_next.Fs.{FileProvider}
use research_ssh_next.Provider.{ProviderEvent, SshProvider}
use research_ssh_next.Session.Driver.{Command, Race, Driver, Input, start}
use research_ssh_next.Session.Handlers.{step}
use research_ssh_next.Session.Handle.{Session}
use research_ssh_next.Ffi.Events.{Emitter}
use research_ssh_next.Ffi.Calls.{
  session_connect, session_disconnect, session_send, session_set_password, session_set_private_key,
}
use research_ssh_next.Ffi.Calls.Requests.{Call, perform}

-- The handle, the driver with the commands of the channel that it has taken, and what the calls for
-- request ids have returned, in order.
pub record System (P S : Type 0) : Type 0 where
  pub session : Session
  pub driver : Driver P S
  pub taken : ℕ
  pub returned : List ℕ

-- A call of the C side, or a turn of the driver's loop.
pub data Action : Type 0 where
  connect disconnect drain : Action
  send set_password : Option Bytes → ℕ → Action
  set_private_key : Option Bytes → Option Bytes → ℕ → Action
  request : Call → Action
  turn : Race → Action
  pushes : ProviderEvent → Action

module _ {P S : Type 0} where
  -- What a call leaves of the session behind the pointer.
  abbrev pub leave : Option Session → System P S → System P S
  leave none sys = sys
  leave (some s) sys = record sys { session = s }

  -- A session with both callbacks registered, over a provider that could be made.
  unfoldable pub registered : P → System P S
  unfolding start
  registered p = record {
    session = record { receiving = true; sent = []; next_request_id = 0 };
    driver = record (start p) { has_file_emitter = true; has_task_emitter = true };
    taken = 0;
    returned = [];
  }

module _ {P S : Type 0} (ssh : SshProvider P S) (files : FileProvider S)
    (from_utf8 : Bytes → Option Text) where
  -- `cmd_rx.recv()` and the arm for the command, if one is there.
  unfoldable pub take_turn : Race → System P S → System P S
  unfolding step
  take_turn race sys = elim (get_elem? sys.session.sent sys.taken) [
    | none ↦ sys
    | some c ↦ record sys {
      driver = step ssh files (Input.command c race) sys.driver;
      taken = sys.taken + 1;
    }
  ]

  unfoldable pub act : Action → System P S → System P S
  unfolding take_turn perform session_connect session_disconnect session_send session_set_password
      session_set_private_key
  act Action.connect sys = leave (session_connect (some sys.session)).1 sys
  act Action.disconnect sys = leave (session_disconnect (some sys.session)).1 sys
  act (Action.send buffer len) sys = leave (session_send buffer len (some sys.session)).1 sys
  act (Action.set_password buffer len) sys =
      leave (session_set_password buffer len (some sys.session)).1 sys
  act (Action.set_private_key path phrase len) sys =
      leave (session_set_private_key from_utf8 path phrase len (some sys.session)).1 sys
  act (Action.request call) sys =
      let (id, session) = perform from_utf8 call (some sys.session) in
      record (leave session sys) { returned = sys.returned ++ id ∷ [] }
  act (Action.turn race) sys = take_turn race sys
  act (Action.pushes ev) sys = record sys { driver = step ssh files (Input.pushes ev) sys.driver }
  act Action.drain sys = record sys { driver = step ssh files Input.drain sys.driver }

  unfoldable pub play : List Action → System P S → System P S
  unfolding act
  play [] sys = sys
  play (a ∷ rest) sys = play rest (act a sys)

-- `emit_file_results(vec![result])`, and the same for tasks, for each result in turn.
unfoldable pub hand_over :
    {E R : Type 0}
    → (List R → Emitter E → Option (Emitter E))
    → List R
    → Emitter E
    → Option (Emitter E)
hand_over emit [] em = some em
hand_over emit (r ∷ rs) em = elim (emit (r ∷ []) em) [
  | none ↦ none
  | some em' ↦ hand_over emit rs em'
]
