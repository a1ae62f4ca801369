-- ===== src/Command/Examples.antt =====
-- The text model's command, with and without what can go wrong.
use large_model_proxy.Base.{◌≡◌, refl, true, false, [], ◌∷◌, none, some}
use large_model_proxy.Samples.{text_model}
use large_model_proxy.Command.{
  Calls, run_service_command, with_log_file, start_with_log, produce_start_command_log_string,
}

abbrev willing : Calls
willing = record {
  makes_dir_of = λ path. true;
  split = λ args. some [];
  opens = λ path. true;
  starts = λ command args workdir. some 4711;
  bytes = λ text. [];
}

has_a_log :
    run_service_command willing false text_model
    ≡ some (record {
      pid = 4711;
      log_file_path = "logs/text.log";
      stdout_writer = none;
      stderr_writer = none;
    })
unfolding run_service_command with_log_file start_with_log
has_a_log = refl

no_folder :
    run_service_command (record willing { makes_dir_of = λ path. false }) true text_model ≡ none
unfolding run_service_command with_log_file start_with_log
no_folder = refl

no_process :
    run_service_command (record willing { starts = λ command args workdir. none }) true text_model
    ≡ none
unfolding run_service_command with_log_file start_with_log
no_process = refl

bad_arguments : run_service_command (record willing { split = λ args. none }) true text_model ≡ none
unfolding run_service_command with_log_file start_with_log
bad_arguments = refl

no_log_file : run_service_command (record willing { opens = λ path. false }) true text_model ≡ none
unfolding run_service_command with_log_file start_with_log
no_log_file = refl

full_line :
    produce_start_command_log_string
      (with_log_file (record text_model { args = "--port 1"; workdir = "/srv" }))
    ≡ (
      "[%s] Starting \"%s %s\", log file: %s, workdir: %s",
      "text" ∷ "serve" ∷ "--port 1" ∷ "logs/text.log" ∷ "/srv" ∷ [],
    )
unfolding produce_start_command_log_string with_log_file
full_line = refl
