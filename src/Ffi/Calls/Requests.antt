-- ===== src/Ffi/Calls/Requests.antt =====
-- ffi.rs: every call that returns a request id, told from the outside.
use research_ssh_next.Prelude.{
  ℕ, ◌+◌, ◌^◌, ◌<◌, Text, Bytes, Bool, true, [], ◌∷◌, ◌++◌, Option, none, some, Option-cases,
  Bool-cases, take, ◌==◌, ◌≡◌, refl, ◌∙◌, ◌⊎◌, inl, inr, if◌then◌else◌,
}
use mathlib.Core.Option
use research_ssh_next.Fs.{FsOp}
use research_ssh_next.Session.Handle.{Session, Request, request}
use research_ssh_next.Session.Handle.Ids.{command_of, request_lem}
use research_ssh_next.Ffi.Calls.{
  bytes_to_vec, cstr_to_string, fs_with_session, with_path, with_paths, session_exec,
  session_fs_list, session_fs_stat, session_fs_read, session_fs_write, session_fs_rename,
  session_fs_remove, session_fs_mkdir, session_fs_copy,
}

-- A call with the arguments that C passes.
pub data Call : Type 0 where
  run fs_read : Option Bytes → ℕ → Call
  fs_list fs_stat fs_mkdir : Option Bytes → Call
  fs_write : Option Bytes → Option Bytes → ℕ → Call
  fs_rename fs_copy : Option Bytes → Option Bytes → Call
  fs_remove : Option Bytes → Bool → Call

module _ (from_utf8 : Bytes → Option Text) where
  unfoldable pub perform : Call → Option Session → ℕ × Option Session
  unfolding session_exec session_fs_list session_fs_stat session_fs_read session_fs_write
      session_fs_rename session_fs_remove session_fs_mkdir session_fs_copy
  perform (Call.run line timeout_ms) s = session_exec from_utf8 line timeout_ms s
  perform (Call.fs_read path max_len) s = session_fs_read from_utf8 path max_len s
  perform (Call.fs_list path) s = session_fs_list from_utf8 path s
  perform (Call.fs_stat path) s = session_fs_stat from_utf8 path s
  perform (Call.fs_mkdir path) s = session_fs_mkdir from_utf8 path s
  perform (Call.fs_write path buffer len) s = session_fs_write from_utf8 path buffer len s
  perform (Call.fs_rename from to) s = session_fs_rename from_utf8 from to s
  perform (Call.fs_copy from to) s = session_fs_copy from_utf8 from to s
  perform (Call.fs_remove path recursive) s = session_fs_remove from_utf8 path recursive s

  text_of : Option Bytes → Option Text
  text_of p = Option.bind p from_utf8

  abbrev bytes_of : Option Bytes → ℕ → Option Bytes
  bytes_of p len = if len == 0 then some [] else Option.map (take len) p

  -- The request that a call with readable arguments stands for.
  unfoldable pub meaning : Call → Option Request
  unfolding text_of
  meaning (Call.run line timeout_ms) =
      Option.map (λ l. Request.command_line l timeout_ms) (text_of line)
  meaning (Call.fs_read path max_len) =
      Option.map (λ p. Request.file_op (FsOp.read p max_len)) (text_of path)
  meaning (Call.fs_list path) = Option.map (λ p. Request.file_op (FsOp.list p)) (text_of path)
  meaning (Call.fs_stat path) = Option.map (λ p. Request.file_op (FsOp.stat p)) (text_of path)
  meaning (Call.fs_mkdir path) = Option.map (λ p. Request.file_op (FsOp.mkdir p)) (text_of path)
  meaning (Call.fs_write path buffer len) =
      Option.bind (text_of path)
        (λ p. Option.map (λ b. Request.file_op (FsOp.write p b)) (bytes_of buffer len))
  meaning (Call.fs_rename from to) =
      Option.bind (text_of from)
        (λ p. Option.map (λ q. Request.file_op (FsOp.rename p q)) (text_of to))
  meaning (Call.fs_copy from to) =
      Option.bind (text_of from)
        (λ p. Option.map (λ q. Request.file_op (FsOp.copy p q)) (text_of to))
  meaning (Call.fs_remove path recursive) =
      Option.map (λ p. Request.file_op (FsOp.remove p recursive)) (text_of path)

  -- What a request does where there is one and a session.
  unfoldable pub issue : Option Request → Option Session → ℕ × Option Session
  unfolding fs_with_session request
  issue none session = (0, session)
  issue (some q) session = fs_with_session session (request q)

  with_path-issue :
      (make : Text → Request) (path : Option Bytes) (session : Option Session)
      → with_path from_utf8 path (λ p. request (make p)) session
        ≡ issue (Option.map make (text_of path)) session
  unfolding with_path cstr_to_string text_of issue Option.bind
  with_path-issue make none session = refl
  with_path-issue make (some bytes) session = elim (Option-cases (from_utf8 bytes)) [
    | inl h ↦ rw (h, with_path, cstr_to_string) refl
    | inr (p, h) ↦ rw (h, with_path, cstr_to_string) refl
  ]

  with_paths-issue :
      (make : Text → Text → Request) (from to : Option Bytes) (session : Option Session)
      → with_paths from_utf8 from to (λ p q. request (make p q)) session
        ≡ issue (Option.bind (text_of from) (λ p. Option.map (make p) (text_of to))) session
  unfolding with_paths cstr_to_string text_of issue Option.bind
  with_paths-issue make none to session = refl
  with_paths-issue make (some a) none session = elim (Option-cases (from_utf8 a)) [
    | inl h ↦ rw (h, with_paths, cstr_to_string) refl
    | inr (p, h) ↦ rw (h, with_paths, cstr_to_string) refl
  ]
  with_paths-issue make (some a) (some b) session = elim (Option-cases (from_utf8 a)) [
    | inl h ↦ rw (h, with_paths, cstr_to_string) refl
    | inr (p, h) ↦ elim (Option-cases (from_utf8 b)) [
      | inl k ↦ rw (h, k, with_paths, cstr_to_string) refl
      | inr (q, k) ↦ rw (h, k, with_paths, cstr_to_string) refl
    ]
  ]

  write-issue :
      (path buffer : Option Bytes) (len : ℕ) (session : Option Session)
      → session_fs_write from_utf8 path buffer len session
        ≡ issue (meaning (Call.fs_write path buffer len)) session
  unfolding session_fs_write bytes_to_vec cstr_to_string text_of issue Option.bind meaning request
  write-issue none buffer len session = refl
  write-issue (some a) buffer len session = elim (Option-cases (from_utf8 a)) [
    | inl h ↦ rw (h, session_fs_write, cstr_to_string, bytes_to_vec) refl
    | inr (p, h) ↦ elim (Bool-cases (len == 0)) [
      | inl z ↦ rw (h, z, session_fs_write, cstr_to_string, bytes_to_vec) refl
      | inr z ↦ elim (Option-cases buffer) [
        | inl k ↦ rw (h, z, k, session_fs_write, cstr_to_string, bytes_to_vec) refl
        | inr (b, k) ↦ rw (h, z, k, session_fs_write, cstr_to_string, bytes_to_vec) refl
      ]
    ]
  ]

  perform-issue :
      (c : Call) (session : Option Session) → perform c session ≡ issue (meaning c) session
  unfolding perform meaning request session_exec session_fs_list session_fs_stat session_fs_read
      session_fs_rename session_fs_remove session_fs_mkdir session_fs_copy
  perform-issue (Call.run line t) s = with_path-issue (λ l. Request.command_line l t) line s
  perform-issue (Call.fs_read path n) s =
      with_path-issue (λ p. Request.file_op (FsOp.read p n)) path s
  perform-issue (Call.fs_list path) s = with_path-issue (λ p. Request.file_op (FsOp.list p)) path s
  perform-issue (Call.fs_stat path) s = with_path-issue (λ p. Request.file_op (FsOp.stat p)) path s
  perform-issue (Call.fs_mkdir path) s =
      with_path-issue (λ p. Request.file_op (FsOp.mkdir p)) path s
  perform-issue (Call.fs_write path buffer len) s = write-issue path buffer len s
  perform-issue (Call.fs_rename from to) s =
      with_paths-issue (λ p q. Request.file_op (FsOp.rename p q)) from to s
  perform-issue (Call.fs_copy from to) s =
      with_paths-issue (λ p q. Request.file_op (FsOp.copy p q)) from to s
  perform-issue (Call.fs_remove path recursive) s =
      with_path-issue (λ p. Request.file_op (FsOp.remove p recursive)) path s

  -- On a session whose driver receives and whose counter is below 2^64 - 1, a call with readable
  -- arguments returns the next id and queues what it means under that id, and any other call
  -- returns 0 and changes nothing.
  pub perform_lem :
      (c : Call) (s : Session)
      → s.receiving ≡ true
      → s.next_request_id + 1 < 2 ^ 64
      → ((meaning c ≡ none) × (perform c (some s) ≡ (0, some s)))
        ⊎ ((q : Request) × (meaning c ≡ some q)
            × (perform c (some s) ≡ (
              s.next_request_id + 1,
              some (record s {
                sent = s.sent ++ command_of (s.next_request_id + 1) q ∷ [];
                next_request_id = s.next_request_id + 1;
              }),
            )))
  unfolding issue fs_with_session
  perform_lem c s h k = elim (Option-cases (meaning c)) [
    | inl m ↦ inl (m, perform-issue c (some s) ∙ (rw m refl))
    | inr (q, m) ↦ inr (q, m, perform-issue c (some s) ∙ (rw (m, request_lem q s h k) refl))
  ]
