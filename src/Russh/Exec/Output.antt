-- ===== src/Russh/Exec/Output.antt =====
-- providers/russh.rs: what a command's messages amount to.
use research_ssh_next.Prelude.{
  append-nil, append_assoc, ℕ, Bytes, List, [], ◌∷◌, ◌++◌, ◌==◌, ◌≡◌, refl, ◌∙◌, into_bytes,
  if◌then◌else◌, Bool-cases, inl, inr,
}
use research_ssh_next.Event.{ExecOutput, no_status}
use research_ssh_next.Russh.Exec.{ChannelMsg, signal_text, collect, no_output}

-- The messages before the first `close`.
abbrev pub until_close : List ChannelMsg → List ChannelMsg
until_close [] = []
until_close (ChannelMsg.close ∷ ms) = []
until_close (ChannelMsg.bytes b ∷ ms) = ChannelMsg.bytes b ∷ until_close ms
until_close (ChannelMsg.extended_data ext b ∷ ms) = ChannelMsg.extended_data ext b ∷ until_close ms
until_close (ChannelMsg.exit_status code ∷ ms) = ChannelMsg.exit_status code ∷ until_close ms
until_close (ChannelMsg.exit_signal n m ∷ ms) = ChannelMsg.exit_signal n m ∷ until_close ms
until_close (ChannelMsg.other ∷ ms) = ChannelMsg.other ∷ until_close ms

abbrev pub stdout_of : ChannelMsg → Bytes
stdout_of (ChannelMsg.bytes b) = b
stdout_of (ChannelMsg.extended_data ext b) = []
stdout_of (ChannelMsg.exit_status code) = []
stdout_of (ChannelMsg.exit_signal n m) = []
stdout_of ChannelMsg.close = []
stdout_of ChannelMsg.other = []

abbrev pub stderr_of : ChannelMsg → Bytes
stderr_of (ChannelMsg.bytes b) = []
stderr_of (ChannelMsg.extended_data ext b) = if ext == 1 then b else []
stderr_of (ChannelMsg.exit_status code) = []
stderr_of (ChannelMsg.exit_signal n m) = into_bytes (signal_text n m)
stderr_of ChannelMsg.close = []
stderr_of ChannelMsg.other = []

-- All that the messages hold for one stream.
abbrev pub stream : (ChannelMsg → Bytes) → List ChannelMsg → Bytes
stream part [] = []
stream part (m ∷ ms) = part m ++ stream part ms

-- The last status or signal, where `status` stands before them.
abbrev pub last_status : ℕ → List ChannelMsg → ℕ
last_status status [] = status
last_status status (ChannelMsg.exit_status code ∷ ms) = last_status code ms
last_status status (ChannelMsg.exit_signal n m ∷ ms) = last_status no_status ms
last_status status (ChannelMsg.bytes b ∷ ms) = last_status status ms
last_status status (ChannelMsg.extended_data ext b ∷ ms) = last_status status ms
last_status status (ChannelMsg.close ∷ ms) = last_status status ms
last_status status (ChannelMsg.other ∷ ms) = last_status status ms

collect-from :
    (ms : List ChannelMsg) (out : ExecOutput)
    → collect ms out ≡ record {
      stdout = out.stdout ++ stream stdout_of (until_close ms);
      stderr = out.stderr ++ stream stderr_of (until_close ms);
      exit_status = last_status out.exit_status (until_close ms);
    }
unfolding collect
collect-from [] out = rw (append-nil out.stdout, append-nil out.stderr) refl
collect-from (ChannelMsg.close ∷ ms) out = rw (append-nil out.stdout, append-nil out.stderr) refl
collect-from (ChannelMsg.bytes b ∷ ms) out =
    collect-from ms (record out { stdout = out.stdout ++ b })
    ∙ (rw (append_assoc out.stdout b (stream stdout_of (until_close ms))) refl)
collect-from (ChannelMsg.extended_data ext b ∷ ms) out = elim (Bool-cases (ext == 1)) [
  | inl e ↦ rw e (
      collect-from ms (record out { stderr = out.stderr ++ b })
      ∙ (rw (append_assoc out.stderr b (stream stderr_of (until_close ms))) refl))
  | inr e ↦ rw e (collect-from ms out)
]
collect-from (ChannelMsg.exit_status code ∷ ms) out =
    collect-from ms (record out { exit_status = code })
collect-from (ChannelMsg.exit_signal n m ∷ ms) out =
    let text = into_bytes (signal_text n m) in
    collect-from ms (record out { stderr = out.stderr ++ text; exit_status = no_status })
    ∙ (rw (append_assoc out.stderr text (stream stderr_of (until_close ms))) refl)
collect-from (ChannelMsg.other ∷ ms) out = collect-from ms out

-- The output of a command is what its messages hold up to the first `close`: standard output and
-- error each in order, however the two are mixed, with the last status or signal, and -1 without one.
pub collect_lem :
    (ms : List ChannelMsg)
    → collect ms no_output ≡ record {
      stdout = stream stdout_of (until_close ms);
      stderr = stream stderr_of (until_close ms);
      exit_status = last_status no_status (until_close ms);
    }
collect_lem ms = collect-from ms no_output
