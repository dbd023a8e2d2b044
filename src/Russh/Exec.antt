-- ===== src/Russh/Exec.antt =====
-- providers/russh.rs: `run_russh_exec`, a command on a channel of its own.
pub mod Output
use research_ssh_next.Prelude.{
  ℕ, Text, Bytes, List, [], ◌∷◌, ◌++◌, ◌==◌, codes, into_bytes, text_eq, if◌then◌else◌,
}
use research_ssh_next.Core.{CoreError, CoreResult, done, fail, RsErrorCode, with_detail}
use research_ssh_next.Event.{ExecOutput, no_status}

-- `ChannelMsg`; an exit code is a `u32`, a signal has its debug text and the server's message.
pub data ChannelMsg : Type 0 where
  bytes : Bytes → ChannelMsg
  extended_data : ℕ → Bytes → ChannelMsg
  exit_status : ℕ → ChannelMsg
  exit_signal : Text → Text → ChannelMsg
  close other : ChannelMsg

unfoldable pub connect_err : Text → Text → CoreError
connect_err stage e = with_detail RsErrorCode.connect_failed (stage ++ (codes ": " ++ e))

-- The text that a signal adds to stderr.
unfoldable pub signal_text : Text → Text → Text
unfolding text_eq
signal_text signal_name error_message =
    if text_eq error_message [] then codes "terminated by " ++ signal_name else error_message

abbrev pub no_output : ExecOutput
no_output = record { stdout = []; stderr = []; exit_status = no_status }

-- The loop over `channel.wait()`: the messages until it gives none.
unfoldable pub collect : List ChannelMsg → ExecOutput → ExecOutput
unfolding signal_text into_bytes
collect [] out = out
collect (ChannelMsg.bytes b ∷ ms) out = collect ms (record out { stdout = out.stdout ++ b })
collect (ChannelMsg.extended_data ext b ∷ ms) out =
    collect ms (if ext == 1 then record out { stderr = out.stderr ++ b } else out)
collect (ChannelMsg.exit_status code ∷ ms) out = collect ms (record out { exit_status = code })
collect (ChannelMsg.exit_signal name message ∷ ms) out = collect ms (record out {
  stderr = out.stderr ++ into_bytes (signal_text name message);
  exit_status = no_status;
})
collect (ChannelMsg.close ∷ ms) out = out
collect (ChannelMsg.other ∷ ms) out = collect ms out
