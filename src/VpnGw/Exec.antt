-- ===== src/VpnGw/Exec.antt =====
-- internal/controller/pod_exec.go: a command in a container of a pod.
pub mod Streamed
use kube_combo.Prelude.{String, Bool, true, false, Option, none, some, List, if◌then◌else◌, Io}
use kube_combo.Prelude.{◌>>=◌, ◌>>◌, pure, bool_eq, nat_eq, string_eq, option_eq, list_eq}
use kube_combo.Text.Words.{trim_space}
use kube_combo.VpnGw.Client.{Client, ExecResult}

pub record ExecOptions : Type 0 where
  pub command : List String
  pub namespace : String
  pub pod_name : String
  pub container_name : String
  pub has_stdin : Bool
  pub capture_stdout : Bool
  pub capture_stderr : Bool
  pub preserve_whitespace : Bool

-- The request for the subresource `exec` of a pod.
pub record ExecRequest : Type 0 where
  pub name : String
  pub namespace : String
  pub container : String
  pub stdin : Bool
  pub stdout : Bool
  pub stderr : Bool
  pub tty : Bool
  pub command : List String

-- The library's executor: its creation, which can fail, and its stream.
pub record Executor (W : Type 0) : Type 0 where
  pub new_spdy_executor : ExecRequest → Option String
  pub stream : ExecRequest → Io W ExecResult

abbrev pub request_of : ExecOptions → ExecRequest
request_of options = record {
  name = options.pod_name;
  namespace = options.namespace;
  container = options.container_name;
  stdin = options.has_stdin;
  stdout = options.capture_stdout;
  stderr = options.capture_stderr;
  tty = false;
  command = options.command;
}

abbrev pub trimmed : ExecResult → ExecResult
trimmed out = record out {
  std_output = trim_space out.std_output;
  err_output = trim_space out.err_output;
}

-- What `ExecuteCommandInContainer` passes on.
abbrev pub options_for : String → String → String → List String → ExecOptions
options_for namespace pod_name container_name cmd = record {
  command = cmd;
  namespace = namespace;
  pod_name = pod_name;
  container_name = container_name;
  has_stdin = false;
  capture_stdout = true;
  capture_stderr = true;
  preserve_whitespace = false;
}

module _ {W : Type 0} (executor : Executor W) where
  open executor use {new_spdy_executor, stream}

  abbrev pub execute_by : ExecRequest → Option String → Io W ExecResult
  execute_by request (some e) = pure (record { std_output = ""; err_output = ""; error = some e })
  execute_by request none = stream request

  unfoldable pub execute : ExecRequest → Io W ExecResult
  execute request = execute_by request (new_spdy_executor request)

  unfoldable pub execute_with_options : ExecOptions → Io W ExecResult
  unfolding execute
  execute_with_options options = do
    out ← execute (request_of options)
    pure (if options.preserve_whitespace then out else trimmed out)

  unfoldable pub execute_command_in_container :
      String → String → String → List String → Io W ExecResult
  unfolding execute_with_options
  execute_command_in_container namespace pod_name container_name cmd =
      execute_with_options (options_for namespace pod_name container_name cmd)

-- The reconciler's calls with this exec.
abbrev pub with_exec : (c : Client) → Executor c.World → Client
with_exec c executor = record c { exec = execute_command_in_container executor }
