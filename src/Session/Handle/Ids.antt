-- ===== src/Session/Handle/Ids.antt =====
-- session.rs: the request ids that the handle returns, and the commands that it queues.
use research_ssh_next.Prelude.{
  append-nil, append_assoc, ℕ, zero, suc, ◌+◌, ◌^◌, ◌%◌, ◌<◌, true, false, List, [], ◌∷◌, ◌++◌,
  length, ◌≡◌, refl, sym, ap, ◌∙◌, arith, replicate,
}
use research_ssh_next.Session.Driver.{Command}
use research_ssh_next.Session.Handle.{
  Session, next_id, submit, submit_fs, exec, Request, request, requests,
}

-- The numbers from `n + 1` on.
abbrev pub ids_after : ℕ → ℕ → List ℕ
ids_after n zero = []
ids_after n (suc k) = (n + 1) ∷ ids_after (n + 1) k

abbrev pub command_of : ℕ → Request → Command
command_of id (Request.file_op op) = Command.fs id op
command_of id (Request.command_line line timeout_ms) = Command.exec id line timeout_ms

-- The commands of a list of requests, the first under the id after `n`.
abbrev pub commands_after : ℕ → List Request → List Command
commands_after n [] = []
commands_after n (q ∷ qs) = command_of (n + 1) q ∷ commands_after (n + 1) qs

below_wrap : (n : ℕ) → n + 1 < 2 ^ 64 → (n + 1) % 2 ^ 64 ≡ n + 1
below_wrap n h = ground arith

pub request_lem :
    (q : Request) (s : Session)
    → s.receiving ≡ true
    → s.next_request_id + 1 < 2 ^ 64
    → request q s ≡ (
      s.next_request_id + 1,
      record s {
        sent = s.sent ++ command_of (s.next_request_id + 1) q ∷ [];
        next_request_id = s.next_request_id + 1;
      },
    )
unfolding request submit_fs exec submit next_id
request_lem (Request.file_op op) s h k = rw (below_wrap s.next_request_id k, h) refl
request_lem (Request.command_line line t) s h k = rw (below_wrap s.next_request_id k, h) refl

-- While the driver receives, and up to 2^64 - 1 requests, the ids returned are the successive
-- numbers from the counter on, and the driver is sent each request in order under its id.
pub requests_ids :
    (qs : List Request) (s : Session)
    → s.receiving ≡ true
    → s.next_request_id + length qs < 2 ^ 64
    → ((requests qs s).0 ≡ ids_after s.next_request_id (length qs))
      × ((requests qs s).1.sent ≡ s.sent ++ commands_after s.next_request_id qs)
unfolding requests
requests_ids [] s h k = (refl, sym (append-nil s.sent))
requests_ids (q ∷ qs) s h k =
    let id = s.next_request_id + 1 in
    let s1 = record s { sent = s.sent ++ command_of id q ∷ []; next_request_id = id } in
    let later = requests_ids qs s1 h (omega arith) in
    rw (request_lem q s h (omega arith)) (
      ap (λ ids. id ∷ ids) later.0,
      later.1 ∙ append_assoc s.sent (command_of id q ∷ []) (commands_after id qs),
    )

request_stopped :
    (q : Request) (s : Session)
    → s.receiving ≡ false
    → request q s ≡ (0, record s { next_request_id = (s.next_request_id + 1) % 2 ^ 64 })
unfolding request submit_fs exec submit next_id
request_stopped (Request.file_op op) s h = rw h refl
request_stopped (Request.command_line line t) s h = rw h refl

-- Once the driver no longer receives, every request returns 0 and nothing is sent.
pub requests_stopped :
    (qs : List Request) (s : Session)
    → s.receiving ≡ false
    → ((requests qs s).0 ≡ replicate (length qs) 0) × ((requests qs s).1.sent ≡ s.sent)
unfolding requests
requests_stopped [] s h = (refl, refl)
requests_stopped (q ∷ qs) s h =
    let s1 = record s { next_request_id = (s.next_request_id + 1) % 2 ^ 64 } in
    let later = requests_stopped qs s1 h in
    rw (request_stopped q s h) (ap (λ ids. 0 ∷ ids) later.0, later.1)
