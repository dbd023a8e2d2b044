-- ===== src/Russh/Provider/Stale.antt =====
-- session.rs over russh.rs: a connection that is left open after an event of the one before it.
use research_ssh_next.Prelude.{Text, Bytes, true, ◌≡◌, refl, ◌∙◌, ap, List, [], is_some}
use research_ssh_next.Core.{CoreResult, done, fail}
use research_ssh_next.Event.{connected, disconnected}
use research_ssh_next.Fs.{FileProvider}
use research_ssh_next.Russh.Keys.{Platform}
use research_ssh_next.Russh.Sftp.{Sftp}
use research_ssh_next.Russh.Network.{Network, Opened, open_connection}
use research_ssh_next.Russh.Provider.{
  RusshProvider, keep_opened, connect, disconnect, take_file_provider, russh_provider,
}
use research_ssh_next.Session.Driver.{Driver}
use research_ssh_next.Session.Handlers.{run}
use research_ssh_next.Session.Stale.{stale_inputs, run-stale_inputs}

module _ {N S C T F K : Type 0} (net : Network N S C T F K) (os : Platform)
    (files : FileProvider (Sftp F)) where
  -- A connection that was made holds a session, and has pushed nothing yet.
  keep_opened-pushed :
      (r : CoreResult (Opened S C T F) × N) (p : RusshProvider N S C T F)
      → (keep_opened net os r p).result ≡ done tt
      → (keep_opened net os r p
          ≡ record { result = done tt; provider = (keep_opened net os r p).provider; pushed = [] })
        × (is_some (take_file_provider net os (keep_opened net os r p).provider).1.session ≡ true)
  unfolding keep_opened take_file_provider
  keep_opened-pushed (done o, n) p h = (refl, refl)
  keep_opened-pushed (fail e, n) p h = absurd (cc)

  -- Over russh: where the server's close of a connection is still in the queue when the user
  -- disconnects and connects again, and that succeeds, the next turn of the queue shows `Disconnected`,
  -- whatever bytes the new connection has received, and the disconnect that follows is ignored: the
  -- provider still holds a session.
  pub stale_event_orphans :
      (d : Driver (RusshProvider N S C T F) (Sftp F)) (reason : Text) (chunks : List Bytes)
      → d.running ≡ true
      → d.state ≡ connected
      → d.queue ≡ []
      → (connect net os (disconnect net os d.provider)).result ≡ done tt
      → ((run (russh_provider net os) files (stale_inputs reason chunks) d).state ≡ disconnected)
        × (is_some
              (run (russh_provider net os) files (stale_inputs reason chunks) d).provider.session
            ≡ true)
  unfolding connect
  stale_event_orphans d reason chunks on up empty opened =
      let p = disconnect net os d.provider in
      let r = open_connection net os p.config p.key_path p.key_passphrase p.secret p.network in
      let (fresh, held) = keep_opened-pushed r p opened in
      let (shown, same) =
        run-stale_inputs (russh_provider net os) files d reason chunks (connect net os p).provider
          on up empty fresh in
      (shown, ap (λ (q : RusshProvider N S C T F). is_some q.session) same ∙ held)
