-- ===== src/Session/Saved/Loaded.antt =====
-- session.rs: the requests that save a file and read it again.
use research_ssh_next.Prelude.{
  ℕ, Text, Bytes, ◌≡◌, sym, ap, append_assoc, List, [], ◌∷◌, ◌++◌, All, arith,
}
use mathlib.Core.Path.{subst}
use research_ssh_next.Core.{CoreResult, done}
use research_ssh_next.Fs.{FilePayload, FileResult, FileProvider, FsOp}
use research_ssh_next.Fs.ReadsBack.{capped, ReadsBack}
use research_ssh_next.Provider.{SshProvider}
use research_ssh_next.Session.Driver.{
  Command, Driver, Input, finishes, payload_of, perform, run_fs_op,
}
use research_ssh_next.Session.Handlers.{emit_file_result, on_fs, on_command, on_input, step, run}
use research_ssh_next.Session.Shutdown.{run-append}
use research_ssh_next.Session.Saved.{IsTerminal, Serves, run-Serves}

-- The two results of a save and a read.
abbrev pub saved_results : ℕ → ℕ → Bytes → List FileResult
saved_results i j content =
    record { request_id = i; payload = FilePayload.ok }
    ∷ record { request_id = j; payload = FilePayload.content content }
    ∷ []

abbrev pub save_and_read : ℕ → ℕ → Text → Bytes → ℕ → List Input → List Input
save_and_read i j path bytes max_len is =
    Input.command (Command.fs i (FsOp.write path bytes)) finishes ∷ is
    ++ Input.command (Command.fs j (FsOp.read path max_len)) finishes ∷ []

module _ {P S : Type 0} (ssh : SshProvider P S) (files : FileProvider S) where
  -- A file request that finishes.
  request-Serves :
      {s : S} {results : List FileResult} (id : ℕ) (op : FsOp) (d : Driver P S)
      → Serves s results d
      → Serves
          (perform files op s).1
          (results ++ record { request_id = id; payload = (perform files op s).0 } ∷ [])
          (step ssh files (Input.command (Command.fs id op) finishes) d)
  unfolding step on_input on_command on_fs run_fs_op emit_file_result
  request-Serves id op d v = record {
    runs = ground (arith, v.runs, v.has_files, v.answers);
    answers = ground (arith, v.runs, v.has_files, v.answers);
    has_files = ground (arith, v.runs, v.has_files, v.answers);
    so_far = ground (arith, v.runs, v.has_files, v.answers, v.so_far);
  }

  answered-Serves :
      {s : S} {results : List FileResult} (id : ℕ) (op : FsOp) (payload : FilePayload) (s' : S)
      (d : Driver P S)
      → perform files op s ≡ (payload, s')
      → Serves s results d
      → Serves s'
          (results ++ record { request_id = id; payload = payload } ∷ [])
          (step ssh files (Input.command (Command.fs id op) finishes) d)
  answered-Serves {results = results} id op payload s' d e v =
      subst
        (λ (r : FilePayload × S).
          Serves r.1 (results ++ record { request_id = id; payload = r.0 } ∷ [])
            (step ssh files (Input.command (Command.fs id op) finishes) d))
        e (request-Serves id op d v)

  -- Where the write succeeds, the read has what was written, whatever is typed, run or received
  -- between the two.
  pub save_and_read-Serves :
      ReadsBack files
      → {s : S} {results : List FileResult} (i j : ℕ) (path : Text) (bytes : Bytes) (max_len : ℕ)
        (is : List Input) (d : Driver P S) (s' : S)
      → Serves s results d
      → files.write_file path bytes s ≡ (done tt, s')
      → All IsTerminal is
      → (t : S) × Serves t
          (results ++ saved_results i j (capped max_len bytes))
          (run ssh files (save_and_read i j path bytes max_len is) d)
  unfolding run perform payload_of
  save_and_read-Serves laws {s = s} {results = results} i j path bytes max_len is d s' v wrote ok =
      let (t, read) = laws.reads_back path bytes max_len s s' wrote in
      let save = Input.command (Command.fs i (FsOp.write path bytes)) finishes in
      let load = Input.command (Command.fs j (FsOp.read path max_len)) finishes in
      let content = FilePayload.content (capped max_len bytes) in
      let d1 = step ssh files save d in
      let d2 = run ssh files is d1 in
      let saved =
        answered-Serves i (FsOp.write path bytes) FilePayload.ok s' d
          (ap (λ (r : CoreResult (Unit {0}) × S). (payload_of (λ _. FilePayload.ok) r.0, r.1))
            wrote)
          v in
      let loaded =
        answered-Serves j (FsOp.read path max_len) content t d2
          (ap (λ (r : CoreResult Bytes × S). (payload_of FilePayload.content r.0, r.1)) read)
          (run-Serves ssh files is d1 ok saved) in
      (
        t,
        subst (λ rs. Serves t rs (run ssh files (is ++ load ∷ []) d1))
            (append_assoc results (record { request_id = i; payload = FilePayload.ok } ∷ [])
              (record { request_id = j; payload = content } ∷ []))
            (subst (Serves t _) (sym (run-append ssh files is (load ∷ []) d1)) loaded),
      )
