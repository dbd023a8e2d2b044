-- ===== src/Fs/ReadsBack.antt =====
-- fs.rs: what the editor relies on of a file provider, whichever backend it is: what was saved is
-- read again.
use research_ssh_next.Prelude.{ℕ, Text, Bytes, ◌≡◌, ◌==◌, if◌then◌else◌, take}
use research_ssh_next.Core.{done}
use research_ssh_next.Fs.{FileProvider}

-- The editor's cap, as the header says it: at most `max_len` bytes, and 0 is no cap.
abbrev pub capped : ℕ → Bytes → Bytes
capped max_len bytes = if max_len == 0 then bytes else take max_len bytes

pub record ReadsBack {S : Type 0} (files : FileProvider S) : Type 0 where
  pub reads_back :
      (path : Text) (bytes : Bytes) (max_len : ℕ) (s s' : S)
      → files.write_file path bytes s ≡ (done tt, s')
      → (t : S) × (files.read_file path max_len s' ≡ (done (capped max_len bytes), t))
