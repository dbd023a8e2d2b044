-- ===== src/Session/Transitions/Life.antt =====
-- session.rs: the life cycle that a session shows over any inputs.
use research_ssh_next.Prelude.{
  Bool, true, false, ◌≡◌, refl, List, [], ◌∷◌, ◌++◌, Option, none, some, if_both, arith,
}
use research_ssh_next.Event.{RsSessionState, SessionEvent}
use research_ssh_next.Event.{disconnected, failed}
use research_ssh_next.Fs.{FileProvider}
use research_ssh_next.Provider.{ProviderEvent, SshProvider}
use research_ssh_next.Session.Driver.{Driver, Input, collect_all, start}
use research_ssh_next.Session.Handlers.{emit_if_any, deliver, on_input, on_drain, step, run}
use research_ssh_next.Session.Transitions.{
  states_of, is_settled, allowed, IsConsistent, emit-Shows, same-Shows,
}
use research_ssh_next.Session.Transitions.Commands.{on_command-IsConsistent}

-- What a drained queue asks for.
abbrev is_closing : Option RsSessionState → Bool
is_closing none = true
is_closing (some disconnected) = true
is_closing (some failed) = true
is_closing (some s) = false

states_of-append : (xs ys : List SessionEvent) → states_of (xs ++ ys) ≡ states_of xs ++ states_of ys
states_of-append [] ys = refl
states_of-append (SessionEvent.state_changed s ∷ xs) ys = rw (states_of-append xs ys)
states_of-append (SessionEvent.terminal_data b ∷ xs) ys = states_of-append xs ys
states_of-append (SessionEvent.error c m ∷ xs) ys = states_of-append xs ys
states_of-append (SessionEvent.host_key_prompt f ∷ xs) ys = states_of-append xs ys

-- The events of a provider show no state; they ask for `Disconnected` or `Failed` alone.
collect_all-closing :
    (evs : List ProviderEvent) (batch : List SessionEvent) (t : Option RsSessionState)
    → states_of batch ≡ []
    → is_closing t ≡ true
    → (states_of (collect_all evs (batch, t)).0 ≡ [])
      × (is_closing (collect_all evs (batch, t)).1 ≡ true)
unfolding collect_all
collect_all-closing [] batch t h k = (h, k)
collect_all-closing (ProviderEvent.terminal_data b ∷ evs) batch t h k =
    collect_all-closing evs _ t
      (rw (states_of-append batch (SessionEvent.terminal_data b ∷ []), h) refl) k
collect_all-closing (ProviderEvent.disconnected r ∷ evs) batch t h k =
    collect_all-closing evs batch _ h refl
collect_all-closing (ProviderEvent.error e ∷ evs) batch t h k =
    collect_all-closing evs _ _ (rw (states_of-append batch (SessionEvent.error _ _ ∷ []), h) refl)
      refl

-- From a settled state the session may always be lost.
loses :
    (s t : RsSessionState)
    → is_settled s ≡ true
    → is_closing (some t) ≡ true
    → (allowed s t ≡ true) × (is_settled t ≡ true)
loses s t h k = ground arith

module _ {P S : Type 0} (ssh : SshProvider P S) (files : FileProvider S) where
  -- One batch that shows `ts`, from a consistent driver.
  emit_if_any-IsConsistent :
      (batch : List SessionEvent) (s : RsSessionState) (d : Driver P S)
      → IsConsistent d
      → states_of batch ≡ s ∷ []
      → allowed d.state s ≡ true
      → is_settled s ≡ true
      → IsConsistent (emit_if_any ssh files batch (record d { state = s }))
  unfolding emit_if_any
  emit_if_any-IsConsistent [] s d v e a h = cc
  emit_if_any-IsConsistent (x ∷ xs) s d v e a h = record {
    shows = emit-Shows d s (x ∷ xs) v.shows (rw e (a, tt)) (rw e refl);
    settled = h;
  }

  deliver-IsConsistent :
      (batch : List SessionEvent) (t : Option RsSessionState) (d : Driver P S)
      → states_of batch ≡ []
      → is_closing t ≡ true
      → IsConsistent d
      → IsConsistent (deliver ssh files batch t d)
  unfolding deliver
  deliver-IsConsistent [] none d h k v = unfold emit_if_any in v
  deliver-IsConsistent (x ∷ xs) none d h k v =
      unfold emit_if_any in
      record {
        shows = emit-Shows d d.state (x ∷ xs) v.shows (rw h tt) (rw h refl);
        settled = v.settled;
      }
  deliver-IsConsistent batch (some s) d h k v =
      let (a, settled) = loses d.state s v.settled k in
      emit_if_any-IsConsistent (batch ++ SessionEvent.state_changed s ∷ []) s d v
        (rw (states_of-append batch (SessionEvent.state_changed s ∷ []), h) refl) a settled

  on_drain-IsConsistent : (d : Driver P S) → IsConsistent d → IsConsistent (on_drain ssh files d)
  unfolding on_drain
  on_drain-IsConsistent d v =
      let c = collect_all-closing d.queue [] none refl refl in
      deliver-IsConsistent _ _ _ c.0 c.1
        (record { shows = same-Shows d _ refl refl v.shows; settled = v.settled })

  step-IsConsistent :
      (i : Input) (d : Driver P S) → IsConsistent d → IsConsistent (step ssh files i d)
  unfolding step
  step-IsConsistent i d v = if_both IsConsistent d.running (input i) v
    where
      input : (i : Input) → IsConsistent (on_input ssh files i d)
      input (Input.command c race) = on_command-IsConsistent ssh files c race d v
      input (Input.pushes ev) = record {
        shows = same-Shows d _ refl refl v.shows;
        settled = v.settled;
      }
      input Input.drain = on_drain-IsConsistent d v
      input Input.register_file_emitter = record {
        shows = same-Shows d _ refl refl v.shows;
        settled = v.settled;
      }
      input Input.register_task_emitter = record {
        shows = same-Shows d _ refl refl v.shows;
        settled = v.settled;
      }

  run-IsConsistent :
      (is : List Input) (d : Driver P S) → IsConsistent d → IsConsistent (run ssh files is d)
  unfolding run
  run-IsConsistent [] d v = v
  run-IsConsistent (i ∷ is) d v = run-IsConsistent is (step ssh files i d) (step-IsConsistent i d v)

  -- Whatever the commands, the provider's events and the cancellations, and in whatever order, the
  -- states that a session has shown form a path of the life cycle that ends in its state, and
  -- between two inputs it never rests in `Connecting` or `Disconnecting`.
  pub run-start-IsConsistent : (is : List Input) (p : P) → IsConsistent (run ssh files is (start p))
  run-start-IsConsistent is p =
      run-IsConsistent is (start p)
        (unfold start in record { shows = record { path = tt; current = refl }; settled = refl })
