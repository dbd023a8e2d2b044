-- ===== src/Ffi/Tasks/Delivery.antt =====
-- ffi.rs: what the C side can read from a batch of command results.
use research_ssh_next.Prelude.{
  ℕ, true, List, [], ◌∷◌, ◌++◌, length, map_all, map_all_cons, Option, none, some, map, ◌≡◌, refl,
  take, take-length,
}
use mathlib.Core.Option
use research_ssh_next.Core.{RsErrorCode}
use research_ssh_next.Event.{ExecPayload, ExecResult, no_status}
use research_ssh_next.Ffi.Backing.{
  Backing, no_backing, push_bytes, push_string, bytes_at, to_cstring, Extends, Extends-refl,
  Extends-trans, push_bytes-Extends, push_string-Extends, bytes_at-push_bytes,
  string_at-push_string,
}
use research_ssh_next.Ffi.Events.{Emitter, call_back}
use research_ssh_next.Ffi.Tasks.{
  RsExecResultKind, RsExecResult, push_payload, push_results, c_result, c_results,
  emit_task_results,
}

-- What a reader that follows the header makes of a record.
unfoldable pub read_result : RsExecResult → Option ExecResult
read_result r = elim r.kind [
  | RsExecResultKind.output ↦ Option.bind r.stdout_ptr (λ out. Option.bind r.stderr_ptr (λ err.
      some record {
        request_id = r.request_id;
        payload = ExecPayload.output record {
          stdout = take r.stdout_len out;
          stderr = take r.stderr_len err;
          exit_status = r.exit_status;
        };
      }))
  | RsExecResultKind.error ↦
      Option.bind r.message
        (λ s. some record { request_id = r.request_id; payload = ExecPayload.error r.error_code s })
]

abbrev sanitized_payload : ExecPayload → ExecPayload
sanitized_payload (ExecPayload.output out) = ExecPayload.output out
sanitized_payload (ExecPayload.error code m) = ExecPayload.error code (to_cstring m)

-- The result with the NULs of its message replaced.
unfoldable pub sanitized : ExecResult → ExecResult
unfolding to_cstring
sanitized r = record r { payload = sanitized_payload r.payload }

abbrev direct_payload : ℕ → ExecPayload → RsExecResult
direct_payload id (ExecPayload.output out) = record {
  request_id = id;
  kind = RsExecResultKind.output;
  stdout_ptr = some out.stdout;
  stdout_len = length out.stdout;
  stderr_ptr = some out.stderr;
  stderr_len = length out.stderr;
  exit_status = out.exit_status;
  error_code = RsErrorCode.ok;
  message = none;
}
direct_payload id (ExecPayload.error code m) = record {
  request_id = id;
  kind = RsExecResultKind.error;
  stdout_ptr = none;
  stdout_len = 0;
  stderr_ptr = none;
  stderr_len = 0;
  exit_status = no_status;
  error_code = code;
  message = some (to_cstring m);
}

-- The record of a result, with no indices.
abbrev pub direct : ExecResult → RsExecResult
direct r = direct_payload r.request_id r.payload

push_payload-Extends : (p : ExecPayload) (st : Backing) → Extends st (push_payload p st).0
unfolding push_payload
push_payload-Extends (ExecPayload.output out) st =
    Extends-trans st (push_bytes out.stdout st).0
      (push_bytes out.stderr (push_bytes out.stdout st).0).0 (push_bytes-Extends out.stdout st)
      (push_bytes-Extends out.stderr (push_bytes out.stdout st).0)
push_payload-Extends (ExecPayload.error code m) st = push_string-Extends m st

push_results-Extends : (rs : List ExecResult) (st : Backing) → Extends st (push_results rs st).0
unfolding push_results
push_results-Extends [] st = Extends-refl st
push_results-Extends (r ∷ rs) st =
    let st1 = (push_payload r.payload st).0 in
    Extends-trans st st1 (push_results rs st1).0 (push_payload-Extends r.payload st)
      (push_results-Extends rs st1)

c_result-push_payload :
    (id : ℕ) (p : ExecPayload) (st st' : Backing)
    → Extends (push_payload p st).0 st'
    → c_result st' (id, (push_payload p st).1) ≡ some (direct_payload id p)
unfolding push_payload c_result Option.bind
c_result-push_payload id (ExecPayload.output out) st st' x =
    let (st1, i) = push_bytes out.stdout st in
    let (st2, j) = push_bytes out.stderr (push_bytes out.stdout st).0 in
    let first : bytes_at st' (push_bytes out.stdout st).1 ≡ some out.stdout =
      x.keeps_bytes (push_bytes out.stdout st).1 out.stdout (
        (push_bytes-Extends out.stderr (push_bytes out.stdout st).0).keeps_bytes
          (push_bytes out.stdout st).1 out.stdout (bytes_at-push_bytes out.stdout st)) in
    let second : bytes_at st' (push_bytes out.stderr (push_bytes out.stdout st).0).1
        ≡ some out.stderr =
      x.keeps_bytes (push_bytes out.stderr (push_bytes out.stdout st).0).1 out.stderr
        (bytes_at-push_bytes out.stderr (push_bytes out.stdout st).0) in
    rw (first, second) refl
c_result-push_payload id (ExecPayload.error code m) st st' x =
    rw (x.keeps_strings (push_string m st).1 (to_cstring m) (string_at-push_string m st)) refl

map_all-push_results :
    (rs : List ExecResult) (st st' : Backing)
    → Extends (push_results rs st).0 st'
    → map_all (c_result st') (push_results rs st).1 ≡ some (map direct rs)
unfolding push_results
map_all-push_results [] st st' x = refl
map_all-push_results (r ∷ rs) st st' x =
    let st1 = (push_payload r.payload st).0 in
    map_all_cons (c_result st') (r.request_id, (push_payload r.payload st).1)
      (push_results rs st1).1
      (c_result-push_payload r.request_id r.payload st st'
        (Extends-trans st1 (push_results rs st1).0 st' (push_results-Extends rs st1) x))
      (map_all-push_results rs st1 st' x)

pub c_results_lem : (rs : List ExecResult) → c_results rs ≡ some (map direct rs)
unfolding c_results
c_results_lem rs =
    map_all-push_results rs no_backing (push_results rs no_backing).0
      (Extends-refl (push_results rs no_backing).0)

read_result-direct_payload :
    (id : ℕ) (p : ExecPayload)
    → read_result (direct_payload id p)
      ≡ some record { request_id = id; payload = sanitized_payload p }
unfolding read_result Option.bind
read_result-direct_payload id (ExecPayload.output out) =
    rw (take-length out.stdout, take-length out.stderr) refl
read_result-direct_payload id (ExecPayload.error code m) = refl

map_all-direct :
    (rs : List ExecResult) → map_all read_result (map direct rs) ≡ some (map sanitized rs)
unfolding sanitized
map_all-direct [] = refl
map_all-direct (r ∷ rs) =
    map_all_cons read_result (direct r) (map direct rs)
      (read_result-direct_payload r.request_id r.payload) (map_all-direct rs)

-- A batch that is not empty reaches an active callback as one call, and a reader of its records
-- finds the results in order, under their ids, with the NULs of messages replaced.
pub emit_task_results-read_result :
    (r : ExecResult) (rs : List ExecResult) (em : Emitter RsExecResult)
    → em.active ≡ true
    → (out : List RsExecResult) × (emit_task_results (r ∷ rs) em
        ≡ some (record em { calls = em.calls ++ out ∷ [] }))
      × (map_all read_result out ≡ some (map sanitized (r ∷ rs)))
unfolding emit_task_results call_back
emit_task_results-read_result r rs em h =
    (map direct (r ∷ rs), rw (c_results_lem (r ∷ rs), h) refl, map_all-direct (r ∷ rs))
