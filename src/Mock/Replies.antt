-- ===== src/Mock/Replies.antt =====
-- providers/mock.rs: the canned replies of the simulated shell and of its side channel.
use research_ssh_next.Prelude.{
  Text, ◌&&◌, ◌||◌, List, [], ◌∷◌, ◌++◌, map, codes, text_eq, starts_with, contains_text,
  contains_char, trim, second_part, into_bytes, if◌then◌else◌,
}
use research_ssh_next.Event.{ExecOutput}

-- Lines that each end in a carriage return and a line feed, and in a line feed.
unfoldable pub crlf_lines : List Text → Text
crlf_lines [] = []
crlf_lines (l ∷ ls) = l ++ 13 ∷ 10 ∷ crlf_lines ls

unfoldable pub lf_lines : List Text → Text
lf_lines [] = []
lf_lines (l ∷ ls) = l ++ 10 ∷ lf_lines ls

abbrev nvidia_smi_lines : List Text
nvidia_smi_lines = map codes (
    "GPU 0: NVIDIA A100-SXM4-80GB  | 42C |  78W / 400W | 12345MiB / 81920MiB | 37%"
    ∷ "GPU 1: NVIDIA A100-SXM4-80GB  | 39C |  61W / 400W |  2048MiB / 81920MiB |  5%" ∷ [])

abbrev squeue_lines : List Text
squeue_lines = map codes (
    "JOBID PARTITION     NAME     USER ST       TIME  NODES NODELIST"
    ∷ "102934       gpu  train.sh  alice  R    2:13:05      4 gpu[01-04]" ∷ [])

abbrev df_lines : List Text
df_lines = map codes (
    "Filesystem      Size  Used Avail Use% Mounted on"
    ∷ "/dev/nvme0n1    1.8T  0.9T  0.8T  53% /home"
    ∷ "scratch          50T   31T   19T  62% /scratch" ∷ [])

abbrev resource_lines : List Text
resource_lines = map codes (
    "__RSSH_RESOURCE_BEGIN__" ∷ "0, NVIDIA A100-SXM4-80GB, 37, 12345, 81920"
    ∷ "1, NVIDIA A100-SXM4-80GB, 5, 2048, 81920" ∷ "__RSSH_RESOURCE_PROCESSES__"
    ∷ "GPU 0, 29418, python train.py, 11840" ∷ "GPU 1, 18302, python eval.py, 2048"
    ∷ "__RSSH_RESOURCE_CPU__" ∷ "PID USER     COMMAND         %CPU %MEM"
    ∷ "29418 alice    python          66.2 18.4" ∷ "18302 researcher python        21.5  7.1"
    ∷ "911 root     systemd          4.0  1.0" ∷ "__RSSH_RESOURCE_JOBS__"
    ∷ "102934|gpu|train.sh|alice|RUNNING|2:13:05|4|gpu[01-04]"
    ∷ "102935|gpu|eval.py|researcher|PENDING|0:00|1|Priority" ∷ "__RSSH_RESOURCE_DISK__"
    ∷ "/dev/nvme0n1|1.8T|0.9T|0.8T|53%|/home" ∷ "scratch|50T|31T|19T|62%|/scratch"
    ∷ "__RSSH_RESOURCE_END__" ∷ [])

abbrev env_probe_lines : List Text
env_probe_lines = map codes (
    "__RSSH_ENV_PROBE__" ∷ "os=Ubuntu 22.04.4 LTS" ∷ "kernel=5.15.0-mock" ∷ "arch=x86_64"
    ∷ "tool:apt=/usr/bin/apt" ∷ "tool:python=/usr/bin/python3" ∷ "tool:pip=/usr/bin/pip"
    ∷ "tool:conda=/opt/conda/bin/conda" ∷ "tool:module=/usr/bin/module"
    ∷ "version:python=Python 3.11.8" ∷ "version:cuda=12.2"
    ∷ "version:gcc=gcc (Ubuntu 11.4.0) 11.4.0" ∷ "__RSSH_ENV_DONE__" ∷ [])

abbrev pkg_list_lines : List Text
pkg_list_lines = map codes (
    "__RSSH_PKG_LIST__" ∷ "pip|numpy|1.26.4" ∷ "pip|torch|2.3.1" ∷ "pip|transformers|4.41.2"
    ∷ "conda|python|3.11.8" ∷ "conda|cuda-toolkit|12.2" ∷ "apt|git|1:2.34.1" ∷ "apt|cmake|3.22.1"
    ∷ "module|cuda/12.2|loaded" ∷ "module|gcc/11.4|available" ∷ "__RSSH_PKG_DONE__" ∷ [])

abbrev pkg_action_lines : List Text
pkg_action_lines = map codes (
    "__RSSH_PKG_ACTION__" ∷ "Resolving package..." ∷ "Downloading metadata..."
    ∷ "Applying package operation..." ∷ "Operation complete." ∷ "__RSSH_PKG_ACTION_DONE__" ∷ [])

python_lines : Text → List Text
python_lines c =
    (codes "模拟运行：" ++ c)
    ∷ (codes "epoch 1/3 - loss=0.420 - device=" ++ device)
    ∷ map codes ("epoch 2/3 - loss=0.310" ∷ "epoch 3/3 - loss=0.260" ∷ "done" ∷ [])
  where
    device : Text
    device = if contains_text (codes "CUDA_VISIBLE_DEVICES=''") c then codes "CPU" else codes "GPU"

-- `mock_response`
unfoldable pub mock_response : Text → Text
unfolding crlf_lines python_lines
mock_response c =
    if text_eq c []
    then []
    else if contains_char 3 c
    then crlf_lines (codes "^C" ∷ [])
    else if starts_with (codes "nvidia-smi") c
    then crlf_lines nvidia_smi_lines
    else if starts_with (codes "squeue") c
    then crlf_lines squeue_lines
    else if starts_with (codes "df") c
    then crlf_lines df_lines
    else if starts_with (codes "python") c
    then crlf_lines (codes "Python 3.11.8(模拟)" ∷ [])
    else if contains_text (codes "__RSSH_RESOURCE_BEGIN__") c
    then crlf_lines resource_lines
    else if contains_text (codes "python") c && contains_text (codes ".py") c
    then crlf_lines (python_lines c)
    else crlf_lines ((codes "未找到命令：" ++ c) ∷ [])

search_lines : Text → List Text
search_lines query =
    codes "__RSSH_PKG_SEARCH_RESULTS__"
    ∷ (codes "pip|" ++ query ++ codes "|latest|PyPI package candidate")
    ∷ (codes "conda|" ++ query ++ codes "|latest|Conda package candidate")
    ∷ (codes "module|" ++ query ++ codes "/latest|available|Environment module candidate")
    ∷ codes "__RSSH_PKG_SEARCH_DONE__"
    ∷ []

exec_stdout : Text → Text
unfolding lf_lines search_lines
exec_stdout cmd =
    if contains_text (codes "__RSSH_ENV_PROBE__") cmd
    then lf_lines env_probe_lines
    else if contains_text (codes "__RSSH_PKG_LIST__") cmd
    then lf_lines pkg_list_lines
    else if contains_text (codes "__RSSH_PKG_SEARCH__") cmd
    then lf_lines (search_lines (trim (second_part (codes "__RSSH_PKG_SEARCH__") cmd)))
    else if contains_text (codes "__RSSH_PKG_ACTION__") cmd
        || contains_text (codes "__RSSH_PKG_INSTALL__") cmd
    then lf_lines pkg_action_lines
    else if starts_with (codes "python --version") cmd
    then lf_lines (codes "Python 3.11.8" ∷ [])
    else lf_lines ((codes "mock exec: " ++ cmd) ∷ [])

-- `mock_exec_output`
unfoldable pub mock_exec_output : Text → ExecOutput
unfolding exec_stdout
mock_exec_output cmd = record {
  stdout = into_bytes (exec_stdout cmd);
  stderr = [];
  exit_status = 0;
}
