-- ===== src/Mock/Provider.antt =====
-- providers/mock.rs: the state of the simulated provider and its methods.
use research_ssh_next.Prelude.{
  ℕ, Text, Bytes, Bool, true, false, not, ◌||◌, ◌==◌, [], ◌∷◌, ◌++◌, Option, none, some, codes,
  text_eq, starts_with, trim_end, decimal, into_bytes, if◌then◌else◌,
}
use research_ssh_next.Core.{RsErrorCode, CoreResult, done, fail, new_error, with_detail}
use research_ssh_next.Event.{ExecOutput}
use research_ssh_next.Provider.{ConnectionConfig, ProviderEvent, SshProvider, Pushing}
use research_ssh_next.MockFs.{MockFs, seeded}
use research_ssh_next.Mock.Replies.{mock_response, mock_exec_output}

-- The stored sink is modelled by whether there is one: what is emitted goes back with the result.
pub record MockProvider : Type 0 where
  pub config : ConnectionConfig
  pub has_sink : Bool
  pub connected : Bool
  pub file_provider : Option MockFs

unfoldable pub new_mock : ConnectionConfig → MockProvider
unfolding seeded
new_mock config = record {
  config = config;
  has_sink = false;
  connected = false;
  file_provider = some seeded;
}

unfoldable pub prompt : MockProvider → Text
prompt p = p.config.username ++ (codes "@" ++ (p.config.host ++ codes ":~$ "))

abbrev crlf : Text
crlf = 13 ∷ 10 ∷ []

unfoldable pub banner : MockProvider → Text
unfolding prompt decimal
banner p =
    codes "ResearchSSH-Next 模拟 SSH 服务器"
    ++ (crlf
        ++ (codes "已连接到 "
            ++ (p.config.host
                ++ (codes ":"
                    ++ (decimal p.config.port
                        ++ (codes "(用户 "
                            ++ (p.config.username
                                ++ (codes ")"
                                    ++ (crlf
                                        ++ (codes "(模拟 Provider,尚未接入真实 SSH)"
                                            ++ (crlf ++ prompt p)))))))))))

-- `host.starts_with("fail") || host.is_empty()`
unfoldable pub is_unreachable : Text → Bool
is_unreachable host = starts_with (codes "fail") host || text_eq host []

unfoldable pub connect : MockProvider → Pushing MockProvider (CoreResult (Unit {0}))
unfolding is_unreachable banner
connect p =
    if is_unreachable p.config.host
    then record {
      result = fail (
          with_detail RsErrorCode.connect_failed
            (codes "模拟：主机 “" ++ (p.config.host ++ codes "” 无法连接")));
      provider = p;
      pushed = [];
    }
    else record {
      result = done tt;
      provider = record p { connected = true; has_sink = true };
      pushed = ProviderEvent.terminal_data (into_bytes (banner p)) ∷ [];
    }

is_line_end : ℕ → Bool
is_line_end c = (c == 13) || (c == 10)

-- The text that one command line is answered by.
unfoldable pub echo : MockProvider → Text → Text
unfolding is_line_end mock_response prompt
echo p command =
    let trimmed = trim_end is_line_end command in
    trimmed ++ (crlf ++ (mock_response trimmed ++ prompt p))

-- `from_utf8_lossy` decodes the bytes that were typed.
unfoldable pub send :
    (Bytes → Text) → Bytes → MockProvider → Pushing MockProvider (CoreResult (Unit {0}))
unfolding echo
send from_utf8_lossy bytes p =
    if not p.connected
    then record { result = fail (new_error RsErrorCode.not_connected); provider = p; pushed = [] }
    else if not p.has_sink
    then record { result = fail (new_error RsErrorCode.invalid_state); provider = p; pushed = [] }
    else record {
      result = done tt;
      provider = p;
      pushed = ProviderEvent.terminal_data (into_bytes (echo p (from_utf8_lossy bytes))) ∷ [];
    }

unfoldable pub exec : Text → ℕ → MockProvider → CoreResult ExecOutput × MockProvider
exec command timeout_ms p =
    if not p.connected
    then (fail (new_error RsErrorCode.not_connected), p)
    else (done (mock_exec_output command), p)

unfoldable pub disconnect : MockProvider → MockProvider
disconnect p = record p { connected = false; has_sink = false }

-- `self.file_provider.take()`
unfoldable pub take_file_provider : MockProvider → Option MockFs × MockProvider
take_file_provider p = (p.file_provider, record p { file_provider = none })

-- `impl SshProvider for MockProvider`. Each call waits before it changes or emits anything, so a
-- dropped one leaves the provider as it was; `disconnect` has no wait.
abbrev pub mock_provider : (Bytes → Text) → SshProvider MockProvider MockFs
mock_provider from_utf8_lossy = record {
  set_secret = λ secret p. p;
  set_private_key = λ key_path passphrase p. p;
  take_file_provider = take_file_provider;
  connect = connect;
  send = send from_utf8_lossy;
  exec = exec;
  disconnect = disconnect;
  connect_dropped = λ p. record { result = tt; provider = p; pushed = [] };
  send_dropped = λ bytes p. record { result = tt; provider = p; pushed = [] };
  exec_dropped = λ command timeout_ms p. p;
  disconnect_dropped = λ p. p;
}
