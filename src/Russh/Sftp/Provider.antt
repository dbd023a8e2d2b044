-- ===== src/Russh/Sftp/Provider.antt =====
-- providers/russh.rs: `SftpFileProvider` as a file provider.
use research_ssh_next.Prelude.{ℕ, Text, Bytes, Bool, Option}
use research_ssh_next.Fs.{FsOp, FileProvider}
use research_ssh_next.Fs.ReadsBack.{ReadsBack}
use research_ssh_next.Russh.Sftp.{Sftp}
use research_ssh_next.Russh.Sftp.Server.{SftpServer}
use research_ssh_next.Russh.Sftp.Ops as Ops
use research_ssh_next.Russh.Sftp.Remove.Fuel.{remove_terminates}
use research_ssh_next.Russh.Sftp.Remove.Terminates.{IsBounded}
use research_ssh_next.Russh.Sftp.Contents.{KeepsFiles}
use research_ssh_next.Russh.Sftp.Contents.Written.{write_file-read_file}

-- Over a server that is bounded, so that `remove` ends. Where inside russh a future is dropped is a
-- parameter.
module _ {H Sv : Type 0} (server : SftpServer H Sv) (max : ℕ) (bounded : IsBounded server max)
    (dropped : FsOp → Sftp Sv → Sftp Sv) where
  -- `impl FileProvider for SftpFileProvider`
  abbrev pub sftp_file_provider : FileProvider (Sftp Sv)
  sftp_file_provider = record {
    list_dir = Ops.list_dir server;
    stat = Ops.stat server;
    read_file = Ops.read_file server;
    write_file = Ops.write_file server;
    rename = Ops.rename server;
    remove = λ path recursive s. (remove_terminates server max bounded 0 path recursive s).0;
    mkdir = Ops.mkdir server;
    dropped = dropped;
    copy = Ops.copy server;
  }

  pub sftp_file_provider-ReadsBack :
      {content : Sv → Text → Option Bytes} {apart : Sv → Text → Text → Bool}
      {At : Sv → H → Text → Type 0}
      → KeepsFiles server content apart At
      → ReadsBack sftp_file_provider
  sftp_file_provider-ReadsBack keeps = record {
    reads_back = λ path bytes max_len s s' e.
        let (t, got, others) = write_file-read_file server keeps path bytes max_len s s' e in
        (t, got);
  }
