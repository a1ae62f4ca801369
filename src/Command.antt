-- ===== src/Command.antt =====
-- service_process.go: runServiceCommand (82-141) and produceStartCommandLogString (143-164).
mod Examples
use Prim.Native.String.{◌++◌ as append}
use large_model_proxy.Base.{
  ℕ, String, Bool, true, false, List, [], ◌∷◌, ◌++◌, Option, none, some, if◌then◌else◌,
}
use large_model_proxy.Config.{Config, ServiceConfig, is_blank}
use large_model_proxy.LogWriter.{Writer}

-- What the code calls: MkdirAll of a log file's folder, the library shlex that splits the arguments,
-- OpenFile of the log file, Start of a command with its arguments in a folder, which gives a process's
-- number, and the bytes of a text. `none` and `false` are errors.
pub record Calls : Type 0 where
  pub makes_dir_of : String → Bool
  pub split : String → Option (List String)
  pub opens : String → Bool
  pub starts : String → List String → String → Option ℕ
  pub bytes : String → List ℕ

-- A started command: the process, the log file, and the writers, which are nil without service logs.
pub record Launched : Type 0 where
  pub pid : ℕ
  pub log_file_path : String
  pub stdout_writer : Option Writer
  pub stderr_writer : Option Writer

-- The function has its own copy of the configuration.
unfoldable pub with_log_file : ServiceConfig → ServiceConfig
with_log_file s =
    if is_blank s.log_file_path
    then record s { log_file_path = append "logs/" (append s.name ".log") }
    else s

-- The format and its arguments, as the three appends build them.
unfoldable pub produce_start_command_log_string : ServiceConfig → String × List String
produce_start_command_log_string s =
    let with_args : String × List String =
      if is_blank s.args
      then ("[%s] Starting \"%s", s.name ∷ s.command ∷ [])
      else (append "[%s] Starting \"%s" " %s", s.name ∷ s.command ∷ s.args ∷ []) in
    let quoted = append with_args.0 "\"" in
    let with_log : String × List String =
      if is_blank s.log_file_path
      then (quoted, with_args.1)
      else (append quoted ", log file: %s", with_args.1 ++ s.log_file_path ∷ []) in
    if is_blank s.workdir
    then with_log
    else (append with_log.0 ", workdir: %s", with_log.1 ++ s.workdir ∷ [])

abbrev pub new_writer : Calls → String → String → Writer
new_writer calls name stream = record {
  prefix = calls.bytes (append "[" (append name (append stream "] ")));
  logger = [];
  buf = [];
}

abbrev pub launched : Calls → ServiceConfig → Bool → ℕ → Launched
launched calls s true pid = record {
  pid = pid;
  log_file_path = s.log_file_path;
  stdout_writer = some (new_writer calls s.name "/stdout");
  stderr_writer = some (new_writer calls s.name "/stderr");
}
launched calls s false pid = record {
  pid = pid;
  log_file_path = s.log_file_path;
  stdout_writer = none;
  stderr_writer = none;
}

-- The service's log is opened only when its folder is there and its arguments can be split. The last
-- argument is OutputServiceLogs.
unfoldable pub start_with_log : Calls → Bool → ServiceConfig → Option Launched
start_with_log calls output_service_logs s =
    if calls.makes_dir_of s.log_file_path
    then elim (calls.split s.args) [
      | none ↦ none
      | some args ↦
          if calls.opens s.log_file_path
          then elim (calls.starts s.command args s.workdir) [
            | none ↦ none
            | some pid ↦ some (launched calls s output_service_logs pid)
          ]
          else none
    ]
    else none

unfoldable pub run_service_command : Calls → Bool → ServiceConfig → Option Launched
unfolding with_log_file start_with_log
run_service_command calls output_service_logs s =
    start_with_log calls output_service_logs (with_log_file s)
