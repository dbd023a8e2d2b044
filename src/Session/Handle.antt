-- ===== src/Session/Handle.antt =====
-- session.rs: `Session`, the handle that queues commands for the driver and gives out request ids.
pub mod Ids
use research_ssh_next.Prelude.{
  ℕ, ◌+◌, ◌^◌, ◌%◌, Text, Bytes, Bool, true, false, List, [], ◌∷◌, ◌++◌, Option, none, some, codes,
  if◌then◌else◌,
}
use research_ssh_next.Core.{RsErrorCode, CoreResult, done, fail, with_detail}
use research_ssh_next.Fs.{FsOp}
use research_ssh_next.Session.Driver.{Command}

-- What the handle's calls read and change: whether the driver still receives, the commands that it
-- was sent, in order, and the counter of ids.
pub record Session : Type 0 where
  pub receiving : Bool
  pub sent : List Command
  pub next_request_id : ℕ

unfoldable pub send_cmd : Command → Session → CoreResult (Unit {0}) × Session
send_cmd c s =
    if s.receiving
    then (done tt, record s { sent = s.sent ++ c ∷ [] })
    else (fail (with_detail RsErrorCode.runtime_error (codes "session driver stopped")), s)

unfoldable pub connect : Session → CoreResult (Unit {0}) × Session
unfolding send_cmd
connect s = send_cmd Command.connect s

unfoldable pub disconnect : Session → CoreResult (Unit {0}) × Session
unfolding send_cmd
disconnect s = send_cmd Command.disconnect s

unfoldable pub send : Bytes → Session → CoreResult (Unit {0}) × Session
unfolding send_cmd
send bytes s = send_cmd (Command.send bytes) s

unfoldable pub set_secret : Bytes → Session → CoreResult (Unit {0}) × Session
unfolding send_cmd
set_secret secret s = send_cmd (Command.set_secret secret) s

unfoldable pub set_private_key :
    Option Text → Option Bytes → Session → CoreResult (Unit {0}) × Session
unfolding send_cmd
set_private_key key_path passphrase s = send_cmd (Command.set_private_key key_path passphrase) s

-- `fetch_add` on an `AtomicU64` wraps, and so does the addition after it in a release build.
unfoldable pub next_id : Session → ℕ × Session
next_id s = let id = (s.next_request_id + 1) % 2 ^ 64 in (id, record s { next_request_id = id })

-- The part that `submit_fs` and `exec` share: the id is used up even where the driver is gone.
unfoldable pub submit : (ℕ → Command) → Session → ℕ × Session
unfolding next_id
submit make s =
    let (id, s') = next_id s in
    if s'.receiving then (id, record s' { sent = s'.sent ++ make id ∷ [] }) else (0, s')

unfoldable pub submit_fs : FsOp → Session → ℕ × Session
unfolding submit
submit_fs op s = submit (λ id. Command.fs id op) s

unfoldable pub exec : Text → ℕ → Session → ℕ × Session
unfolding submit
exec line timeout_ms s = submit (λ id. Command.exec id line timeout_ms) s

-- A request of a client.
pub data Request : Type 0 where
  file_op : FsOp → Request
  command_line : Text → ℕ → Request

unfoldable pub request : Request → Session → ℕ × Session
unfolding submit_fs exec
request (Request.file_op op) s = submit_fs op s
request (Request.command_line line timeout_ms) s = exec line timeout_ms s

-- A list of requests, with the ids that they return.
unfoldable pub requests : List Request → Session → List ℕ × Session
unfolding request
requests [] s = ([], s)
requests (q ∷ qs) s = let (id, s1) = request q s in let (ids, s2) = requests qs s1 in (id ∷ ids, s2)
