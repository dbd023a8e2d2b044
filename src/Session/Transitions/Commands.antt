-- ===== src/Session/Transitions/Commands.antt =====
-- session.rs: the arms of the driver's loop and the states that they show.
use research_ssh_next.Prelude.{ℕ, Text, Bytes, true, false, ◌≡◌, refl, inl, inr, Bool-cases, arith}
use research_ssh_next.Core.{RsErrorCode, CoreResult, done, fail}
use research_ssh_next.Event.{RsSessionState}
use research_ssh_next.Event.{connecting, connected, disconnecting, disconnected, failed}
use research_ssh_next.Fs.{FileProvider, FsOp}
use research_ssh_next.Provider.{SshProvider}
use research_ssh_next.Session.Driver.{
  Command, Race, finishes, dropped, Driver, is_connected, is_busy, set_state, emit_error,
  emit_core_error,
}
use research_ssh_next.Session.Handlers.{
  take_files, connect_done, run_connect, send_done, run_send, on_connect, on_send, on_disconnect,
  on_shutdown, on_fs, on_exec, on_command,
}
use research_ssh_next.Session.Transitions.{
  is_settled, allowed, Shows, IsConsistent, set_state-Shows, emit_error-Shows,
  emit_core_error-Shows, same-Shows,
}

-- A connection attempt starts, and a disconnect that was asked for, from the right states.
begins :
    (s : RsSessionState) → is_settled s ≡ true → is_busy s ≡ false → allowed s connecting ≡ true
unfolding is_busy
begins s h k = ground arith

closes :
    (s : RsSessionState) → is_settled s ≡ true → is_busy s ≡ true → allowed s disconnecting ≡ true
unfolding is_busy
closes s h k = ground arith

module _ {P S : Type 0} (ssh : SshProvider P S) (files : FileProvider S) where
  -- A driver in a settled state that showed what `d` showed.
  same-IsConsistent :
      (d d' : Driver P S)
      → d'.batches ≡ d.batches
      → d'.state ≡ d.state
      → IsConsistent d
      → IsConsistent d'
  same-IsConsistent d d' b s v = record {
    shows = same-Shows d d' b s v.shows;
    settled = rw s v.settled;
  }

  emit_error-IsConsistent :
      (code : RsErrorCode) (message : Text) (d : Driver P S)
      → IsConsistent d
      → IsConsistent (emit_error code message d)
  emit_error-IsConsistent code message d v = record {
    shows = emit_error-Shows code message d v.shows;
    settled = unfold emit_error in v.settled;
  }

  connect_done-IsConsistent :
      (r : CoreResult (Unit {0})) (d : Driver P S)
      → d.state ≡ connecting
      → Shows d
      → IsConsistent (connect_done ssh files r d)
  unfolding connect_done
  connect_done-IsConsistent (done _) d c v = record {
    shows =
        set_state-Shows connected (take_files ssh files d) (rw c refl) (same-Shows d _ refl refl v);
    settled = unfold set_state in refl;
  }
  connect_done-IsConsistent (fail e) d c v = record {
    shows =
        set_state-Shows failed (emit_core_error e d) (unfold emit_core_error in rw c refl)
          (emit_core_error-Shows e d v);
    settled = unfold set_state in refl;
  }

  run_connect-IsConsistent :
      (race : Race) (d : Driver P S)
      → d.state ≡ connecting
      → Shows d
      → IsConsistent (run_connect ssh files race d)
  unfolding run_connect
  run_connect-IsConsistent finishes d c v =
      connect_done-IsConsistent _ _ c (same-Shows d _ refl refl v)
  run_connect-IsConsistent dropped d c v = record {
    shows =
        set_state-Shows disconnected _ (unfold emit_error in rw c refl)
          (emit_error-Shows _ _ _ (same-Shows d _ refl refl v));
    settled = unfold set_state in refl;
  }

  on_connect-IsConsistent :
      (race : Race) (d : Driver P S) → IsConsistent d → IsConsistent (on_connect ssh files race d)
  unfolding on_connect
  on_connect-IsConsistent race d v = elim (Bool-cases (is_busy d.state)) [
    | inl busy ↦ rw busy (emit_error-IsConsistent _ _ d v)
    | inr free ↦ rw free (
        run_connect-IsConsistent race (set_state connecting d) (unfold set_state in refl)
          (set_state-Shows connecting d (begins d.state v.settled free) v.shows))
  ]

  on_send-IsConsistent :
      (race : Race) (bytes : Bytes) (d : Driver P S)
      → IsConsistent d
      → IsConsistent (on_send ssh files race bytes d)
  unfolding on_send
  on_send-IsConsistent race bytes d v = elim (Bool-cases (is_connected d.state)) [
    | inl there ↦ rw there (sent race)
    | inr gone ↦ rw gone (emit_error-IsConsistent _ _ d v)
  ]
    where
      told :
          (r : CoreResult (Unit {0})) (d' : Driver P S)
          → IsConsistent d'
          → IsConsistent (send_done ssh files r d')
      told (done _) d' w = w
      told (fail e) d' w = record {
        shows = emit_core_error-Shows e d' w.shows;
        settled = unfold emit_core_error in w.settled;
      }

      sent : (race : Race) → IsConsistent (run_send ssh files race bytes d)
      sent finishes = told _ _ (same-IsConsistent d _ refl refl v)
      sent dropped = emit_error-IsConsistent _ _ _ (same-IsConsistent d _ refl refl v)

  on_disconnect-IsConsistent :
      (d : Driver P S) → IsConsistent d → IsConsistent (on_disconnect ssh files d)
  unfolding on_disconnect
  on_disconnect-IsConsistent d v = elim (Bool-cases (is_busy d.state)) [
    | inl busy ↦ rw busy (record {
      shows = set_state-Shows disconnected _ refl (
          same-Shows (set_state disconnecting d) _ refl refl
            (set_state-Shows disconnecting d (closes d.state v.settled busy) v.shows));
      settled = refl;
    })
    | inr free ↦ rw free v
  ]

  on_shutdown-IsConsistent :
      (race : Race) (d : Driver P S) → IsConsistent d → IsConsistent (on_shutdown ssh files race d)
  unfolding on_shutdown
  on_shutdown-IsConsistent race d v = elim (Bool-cases (is_busy d.state)) [
    | inl busy ↦ rw busy (same-IsConsistent d _ refl refl v)
    | inr free ↦ rw free (same-IsConsistent d _ refl refl v)
  ]

  on_fs-IsConsistent :
      (race : Race) (id : ℕ) (op : FsOp) (d : Driver P S)
      → IsConsistent d
      → IsConsistent (on_fs ssh files race id op d)
  unfolding on_fs
  on_fs-IsConsistent finishes id op d v = same-IsConsistent d _ (ground arith) (ground arith) v
  on_fs-IsConsistent dropped id op d v = same-IsConsistent d _ (ground arith) (ground arith) v

  on_exec-IsConsistent :
      (race : Race) (id : ℕ) (line : Text) (timeout_ms : ℕ) (d : Driver P S)
      → IsConsistent d
      → IsConsistent (on_exec ssh files race id line timeout_ms d)
  unfolding on_exec
  on_exec-IsConsistent finishes id line timeout_ms d v =
      same-IsConsistent d _ (ground arith) (ground arith) v
  on_exec-IsConsistent dropped id line timeout_ms d v =
      same-IsConsistent d _ (ground arith) (ground arith) v

  pub on_command-IsConsistent :
      (c : Command) (race : Race) (d : Driver P S)
      → IsConsistent d
      → IsConsistent (on_command ssh files c race d)
  unfolding on_command
  on_command-IsConsistent Command.connect race d v = on_connect-IsConsistent race d v
  on_command-IsConsistent (Command.send bytes) race d v = on_send-IsConsistent race bytes d v
  on_command-IsConsistent Command.disconnect race d v = on_disconnect-IsConsistent d v
  on_command-IsConsistent Command.shutdown race d v = on_shutdown-IsConsistent race d v
  on_command-IsConsistent (Command.fs id op) race d v = on_fs-IsConsistent race id op d v
  on_command-IsConsistent (Command.exec id line t) race d v =
      on_exec-IsConsistent race id line t d v
  on_command-IsConsistent (Command.set_secret x) race d v = same-IsConsistent d _ refl refl v
  on_command-IsConsistent (Command.set_private_key k x) race d v = same-IsConsistent d _ refl refl v
