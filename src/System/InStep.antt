-- ===== src/System/InStep.antt =====
-- The handle and the driver between two actions: what was sent has been taken or waits, and what was
-- taken has been answered.
pub mod Actions
pub mod Turns
use research_ssh_next.Prelude.{
  ℕ, ◌+◌, ◌≤◌, true, ◌≡◌, refl, List, [], ◌∷◌, ◌++◌, map, length, All, none, some,
}
use research_ssh_next.Session.Driver.{Command, Driver}
use research_ssh_next.Session.Handle.Ids.{ids_after}
use research_ssh_next.System.{System}
use research_ssh_next.System.Ledger.{
  file_ids_of, task_ids_of, ids_by, request_ids_of, IsOrdinary, accepted,
}

module _ {P S : Type 0} where
  -- At most `w` commands wait, and at most `m` ids have been given out.
  pub record IsInStep (w m : ℕ) (sys : System P S) : Type 0 where
    pub served : List Command
    pub waiting : List Command
    pub whole : sys.session.sent ≡ served ++ waiting
    pub place : sys.taken ≡ length served
    pub few : length waiting ≤ w
    pub ordinary : All IsOrdinary waiting
    pub receives : sys.session.receiving ≡ true
    pub runs : sys.driver.running ≡ true
    pub has_files : sys.driver.has_file_emitter ≡ true
    pub has_tasks : sys.driver.has_task_emitter ≡ true
    pub files : map (λ r. r.request_id) sys.driver.file_results ≡ ids_by file_ids_of served
    pub tasks : map (λ r. r.request_id) sys.driver.task_results ≡ ids_by task_ids_of served
    pub given : accepted sys.returned ≡ ids_by request_ids_of sys.session.sent
    pub numbered : accepted sys.returned ≡ ids_after 0 sys.session.next_request_id
    pub counted : sys.session.next_request_id ≤ m
