-- ===== src/Russh/Provider/Accepted.antt =====
-- providers/russh.rs: what `connect` needs of the server before it succeeds.
use research_ssh_next.Prelude.{Text, ◌≡◌, refl, ap, sym, ◌∙◌, Option, some, is_some, codes}
use research_ssh_next.Core.{CoreResult, done, fail}
use research_ssh_next.Russh.Keys.{Platform}
use research_ssh_next.Russh.Auth.{authenticate, passphrase_text}
use research_ssh_next.Russh.Auth.Order.{IsAuthentic, authenticate-accepted}
use research_ssh_next.Russh.Sftp.{Sftp}
use research_ssh_next.Russh.Sftp.Server.{Reply, answer, refusal}
use research_ssh_next.Russh.Exec.{connect_err}
use research_ssh_next.Russh.Network.{
  Network, Step, ◌>>=◌, ◌>>◌, or_error, Opened, candidate_keys, try_sftp, spawn_read_task,
  open_connection, open_shell, pure,
}
use research_ssh_next.Russh.Provider.{RusshProvider, keep_opened, connect}

done-injective : {A : Type 0} (a b : A) → Path (CoreResult A) (done a) (done b) → a ≡ b
done-injective a b h = cc

module _ {N A : Type 0} where
  -- A step whose values all have a property.
  abbrev Yields : (A → Type 0) → Step N A → Type 0
  Yields P m = (n : N) (a : A) → (m n).0 ≡ done a → P a

  bind-Yields :
      {B : Type 0} (P : A → Type 0) (m : Step N B) (f : B → Step N A)
      → ((b : B) → Yields P (f b))
      → Yields P (m >>= f)
  bind-Yields {B} P m f all n a h = bound (m n) h
    where
      bound : (r : CoreResult B × N) → (((λ n. r) >>= f) n).0 ≡ done a → P a
      bound (done b, n') h = all b n' a h
      bound (fail e, n') h = absurd (cc)

module _ {N S C T F K : Type 0} (net : Network N S C T F K) (os : Platform) where
  kept-done :
      (r : CoreResult (Opened S C T F) × N) (p : RusshProvider N S C T F)
      → (keep_opened net os r p).result ≡ done tt
      → (o : Opened S C T F) × (r.0 ≡ done o)
        × ((keep_opened net os r p).provider.session ≡ some o.session)
  unfolding keep_opened
  kept-done (done o, n) p h = (o, refl, refl)
  kept-done (fail e, n) p h = absurd (cc)

  open_shell-session : (session : S) → Yields (λ o. o.session ≡ session) (open_shell net session)
  unfolding open_shell
  open_shell-session session =
      let P = λ (o : Opened S C T F). o.session ≡ session in
      let ask = λ (stage : Text) (m : N → Reply (Unit {0}) × N). or_error (connect_err stage) m in
      let last : C → T → Option (Sftp F) → Step N (Opened S C T F) = λ channel task files.
        pure (record {
          session = session;
          writer = channel;
          read_task = task;
          file_provider = files;
        }) in
      let files = λ (channel : C) (task : T). try_sftp net session >>= last channel task in
      let task = λ (channel : C). spawn_read_task net channel >>= files channel in
      let shell =
        λ (channel : C). ask (codes "request shell") (net.request_shell channel) >> task channel in
      let pty =
        λ (channel : C). ask (codes "request pty") (net.request_pty channel) >> shell channel in
      bind-Yields P
        (or_error (connect_err (codes "open channel")) (net.channel_open_session session)) pty
        (λ channel.
          bind-Yields P (ask (codes "request pty") (net.request_pty channel)) (λ u. shell channel)
            (λ u.
              bind-Yields P (ask (codes "request shell") (net.request_shell channel))
                (λ u. task channel)
                (λ u. bind-Yields P (spawn_read_task net channel) (files channel) (λ t.
                  bind-Yields P (try_sftp net session) (last channel t) (λ fs n o h.
                    sym (ap (λ (r : Opened S C T F). r.session) (done-injective _ o h)))))))

  -- What the server granted on a session, between two states of the network.
  abbrev pub IsLoggedIn : RusshProvider N S C T F → S → N → N → Type 0
  IsLoggedIn p session n n' =
      let keys = candidate_keys os p.config p.key_path in
      (phrase : Option Text) × (passphrase_text (net.auth session) p.config.username
          p.key_passphrase
        ≡ done phrase)
      × IsAuthentic (net.auth session) p.config.username phrase (is_some p.key_path) keys p.secret n
          n'

  log_in : RusshProvider N S C T F → S → Step N (Unit {0})
  unfolding authenticate candidate_keys
  log_in p session =
      authenticate (net.auth session) p.config.username (candidate_keys os p.config p.key_path)
        (is_some p.key_path) p.key_passphrase p.secret

  after_log_in :
      (p : RusshProvider N S C T F) (session : S) (n : N) (r : CoreResult (Unit {0}) × N)
      → log_in p session n ≡ r
      → (keep_opened net os (((λ n. r) >> open_shell net session) n) p).result ≡ done tt
      → (n' : N) × IsLoggedIn p session n n'
        × ((keep_opened net os (((λ n. r) >> open_shell net session) n) p).provider.session
            ≡ some session)
  unfolding log_in keep_opened
  after_log_in p session n (done u, n') e h =
      let (o, opened, kept) = kept-done (open_shell net session n') p h in
      (
        n',
        (authenticate-accepted (net.auth session) p.config.username
              (candidate_keys os p.config p.key_path) (is_some p.key_path) p.key_passphrase p.secret
              n n').0
            e,
        kept ∙ ap some (open_shell-session session n' o opened),
      )
  after_log_in p session n (fail x, n') e h = absurd (cc)

  after_connect :
      (p : RusshProvider N S C T F) (r : Reply S × N)
      → net.client_connect p.config p.network ≡ r
      → (keep_opened net os
          ((or_error (connect_err (codes "connect")) (λ n. r)
              >>= (λ session. log_in p session >> open_shell net session))
            p.network)
          p).result
        ≡ done tt
      → (session : S) × (n : N) × (n' : N) × (net.client_connect p.config p.network
          ≡ (answer session, n))
        × IsLoggedIn p session n n'
        × ((keep_opened net os
              ((or_error (connect_err (codes "connect")) (λ n. r)
                  >>= (λ session. log_in p session >> open_shell net session))
                p.network)
              p).provider.session
            ≡ some session)
  unfolding keep_opened
  after_connect p (answer session, n) e h =
      let (n', granted, kept) = after_log_in p session n (log_in p session n) refl h in
      (session, n, n', e, granted, kept)
  after_connect p (refusal x, n) e h = absurd (cc)

  -- `connect` succeeds only over a session that the network has opened for the configured host and on
  -- which the server accepted a candidate key or the given password, and that session is the one
  -- that the provider then holds.
  pub connect-IsLoggedIn :
      (p : RusshProvider N S C T F)
      → (connect net os p).result ≡ done tt
      → (session : S) × (n : N) × (n' : N) × (net.client_connect p.config p.network
          ≡ (answer session, n))
        × IsLoggedIn p session n n'
        × ((connect net os p).provider.session ≡ some session)
  unfolding connect open_connection log_in
  connect-IsLoggedIn p h = after_connect p (net.client_connect p.config p.network) refl h
