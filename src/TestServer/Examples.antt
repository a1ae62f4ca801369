-- ===== src/TestServer/Examples.antt =====
-- Two connections of the main port, a stream that breaks, and a chat without messages.
use large_model_proxy.Base.{
  ◌≡◌, refl, true, false, List, [], ◌∷◌, none, some, pos, wrap, add, sub, ◌+ℤ◌, ◌-ℤ◌, All, ◌↔◌, ◌⊎◌,
  str_eq,
}
use large_model_proxy.TestServer.MainPort.{
  Server, Action, not_yet, listens, app_starts, receives, handles, watches, run, own_pid,
  listener_step, handler_step, watcher_step, at, put, decrement_connections, listen_on_main_port,
}
use large_model_proxy.TestServer.MainPort.Threads.{IsSound}
use large_model_proxy.TestServer.MainPort.Counter.{number_open}
use large_model_proxy.TestServer.Health.{health_check_handler}
use large_model_proxy.TestServer.Health.Reports.{checked, run-checked}
use large_model_proxy.TestServer.Writer.{Format, Answers, parsed, failed}
use large_model_proxy.TestServer.Completions.{OpenAiApiCompletionRequest}
use large_model_proxy.TestServer.Chat.{
  OpenAiApiChatRequest, handle_chat_completions, parse_and_validate_chat_request,
  handle_single_chat_completion, last_content,
}
use large_model_proxy.TestServer.Chat.Chunks.{handle_chat_completions-panics}
use large_model_proxy.TestServer.Program.{
  Flags, main_select, clock, signalled, sigterm, exit_after, fate, goroutines, health_check_listen,
}

abbrev stopped : Server
stopped = record {
  listener = not_yet;
  timer = false;
  app_started = false;
  main_port_connections = pos 0;
  connections = [];
}

-- The first client gets the error of a server that still starts; the second one leaves, and its handler
-- finds the channel closed.
abbrev two_clients : List Action
two_clients =
    listens 1000 true
    ∷ receives
    ∷ handles 0 true
    ∷ app_starts
    ∷ receives
    ∷ handles 0 true
    ∷ handles 0 true
    ∷ handles 1 true
    ∷ watches 1
    ∷ watches 1
    ∷ watches 1
    ∷ handles 1 true
    ∷ []

one_is_left : (checked (run stopped two_clients)).main_port_connections ≡ pos 1
unfolding run listener_step handler_step watcher_step at put decrement_connections
    listen_on_main_port health_check_handler add sub wrap ◌+ℤ◌ ◌-ℤ◌
one_is_left = refl

run-checked_example :
    let u = run stopped two_clients in
    ((checked u).main_port_connections ≡ wrap (pos (number_open u.connections)))
    × All IsSound u.connections
    × All (λ k. k.answer ≡ some own_pid → (checked u).status ≡ 200) u.connections
run-checked_example = run-checked stopped two_clients refl refl

abbrev plain : Format
plain = record { show_number = (λ n. "0"); quote = (λ t. t); now = 0 }

abbrev third_fails : Answers
third_fails = record {
  flushes = true;
  write_error = "broken pipe";
  written = true ∷ true ∷ false ∷ [];
}

abbrev asks : OpenAiApiCompletionRequest
asks = record { model = "test"; prompt = "hello"; stream = true }

abbrev nothing_said : OpenAiApiChatRequest
nothing_said = record { model = "test"; messages = []; stream = false }

handle_chat_completions-panics_example :
    (handle_chat_completions (λ c. failed "no") plain third_fails "POST" (parsed nothing_said)
      ≡ none)
    ↔ ((str_eq "POST" "POST" ≡ true)
        × (nothing_said.messages ≡ [])
        × ((nothing_said.stream ≡ false) ⊎ (third_fails.flushes ≡ true)))
handle_chat_completions-panics_example =
    handle_chat_completions-panics (λ c. failed "no") plain third_fails "POST" nothing_said

panics :
    handle_chat_completions (λ c. failed "no") plain third_fails "POST" (parsed nothing_said) ≡ none
unfolding handle_chat_completions parse_and_validate_chat_request handle_single_chat_completion
    last_content
panics = refl

abbrev checked_only : Flags
checked_only = record {
  port = "";
  health_check_api_port = "8081";
  open_ai_api_port = "";
  proc_port = "";
  exit_after_duration = 50;
  exit_script = "";
  ignore_sigterm = true;
}

ignores_sigterm :
    main_select checked_only (signalled sigterm ∷ clock 60 ∷ []) ≡ some (exit_after, false)
unfolding main_select fate
ignores_sigterm = refl

starts_one : goroutines checked_only ≡ health_check_listen "8081" ∷ []
unfolding goroutines
starts_one = refl
