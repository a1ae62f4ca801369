-- ===== src/Launch/Examples.antt =====
-- The text model has a command that tells its health: it fails at first, and passes later; the service
-- listens 1 µs behind the first dial.
use large_model_proxy.Base.{
  ℕ, zero, suc, ◌+◌, ◌≡◌, ◌≢◌, ◌⊎◌, refl, Bool, true, false, [], ◌∷◌, List, Any, none, some, ◌-ℤ◌,
  arith, wrap,
}
use large_model_proxy.Config.{ServiceConfig, is_blank}
use large_model_proxy.Samples.{text_model}
use large_model_proxy.Launch.HealthCheck.{
  Round, Pause, Waited, exits, passes_deadline, unhealthy, command_timed_out, check_round,
  check_rounds, rest_round, sleep_duration, perform_health_check,
}
use large_model_proxy.Launch.HealthEnds.{Passed}
use large_model_proxy.Launch.Dial.{
  Try, connected, gave_up, nothing, Sleep, first_sleep, next_sleep, try_once, try_connecting,
}
use large_model_proxy.Launch.DialEnds.{IsTimed, pauses}
use large_model_proxy.Launch.Await.{
  ready, waiting, Clock, startup_connection_timeout, await_service, after, dial_deadline,
}
use large_model_proxy.ChannelMutex.{takes_token, try_lock, lock_or_cancel, unlock}
use large_model_proxy.Launch.Queue.{
  Look, Answers, starts_service, take_turns, take_turn, queued_turn,
  start_service_if_not_already_running_and_connect,
}
use large_model_proxy.Launch.Queued.{IsServedInTurn, served_in_turn}
use large_model_proxy.Launch.AwaitEnds.{IsTaken, ready_has_answered, startup_ends}

-- An interval and a timeout of a millisecond.
abbrev checked : ServiceConfig
checked = record text_model {
  healthcheck_command = "curl localhost";
  healthcheck_interval_milliseconds = 1;
  startup_timeout_milliseconds = some 1;
}

abbrev patient : ServiceConfig
patient = record checked { startup_timeout_milliseconds = none }

abbrev clock : Clock
clock = record {
  set = 0;
  checks = 0;
  reads = 3_000_000;
  dials = 3_000_000;
  interrupted_before = false;
  interrupted_behind = false;
}

abbrev round_at : ℕ → Waited → Round
round_at now waited = record {
  interrupted = false;
  now = now;
  starts = true;
  waited = waited;
  later = now + 1_000;
  pause = Pause.sleeps;
}

abbrev two_rounds : List Round
two_rounds = round_at 0 (exits 7) ∷ round_at 2_000_000 (exits 0) ∷ []

hangs :
    perform_health_check checked 1_000_000 (round_at 0 passes_deadline ∷ [])
    ≡ unhealthy command_timed_out
unfolding perform_health_check check_rounds check_round rest_round sleep_duration
hangs = refl

abbrev try_at : ℕ → Bool → Try
try_at now dials = record {
  now = now;
  poll = nothing;
  interrupted = false;
  dials = dials;
  sleep = Sleep.sleeps;
}

abbrev two_tries : List Try
two_tries = try_at 3_000_000 false ∷ try_at 3_001_000 true ∷ []

listens : try_connecting 5_000_000 first_sleep two_tries ≡ connected
unfolding try_connecting try_once next_sleep
listens = refl

out_of_time : try_connecting 3_000_500 first_sleep two_tries ≡ gave_up
unfolding try_connecting try_once next_sleep
out_of_time = refl

comes_up : await_service patient clock two_rounds two_tries ≡ ready
unfolding await_service startup_connection_timeout perform_health_check check_rounds check_round
    rest_round sleep_duration ◌-ℤ◌ wrap try_connecting try_once next_sleep
comes_up = refl

ready_has_answered_example :
    let timeout = startup_connection_timeout patient in
    ((is_blank patient.healthcheck_command ≡ true)
      ⊎ Any (Passed (after clock.checks timeout)) two_rounds)
    × Any (IsTaken (dial_deadline clock timeout)) two_tries
    × (clock.interrupted_before ≡ false)
    × (clock.interrupted_behind ≡ false)
ready_has_answered_example = ready_has_answered patient clock two_rounds two_tries comes_up

-- Dials that all fail, each at the end of the pause before it.
failing_tries : ℕ → ℕ → ℕ → List Try
failing_tries zero now sleep = []
failing_tries (suc n) now sleep =
    try_at now false ∷ failing_tries n (now + sleep) (next_sleep sleep)

failing_tries-IsTimed : (n now sleep : ℕ) → IsTimed now sleep (failing_tries n now sleep)
unfolding failing_tries
failing_tries-IsTimed zero now sleep = tt
failing_tries-IsTimed (suc n) now sleep =
    (omega arith, failing_tries-IsTimed n (now + sleep) (next_sleep sleep))

startup_ends_example :
    await_service checked clock two_rounds
      (try_at 3_000_000 false ∷ failing_tries 10 3_001_000 2_000)
    ≢ waiting
unfolding sleep_duration startup_connection_timeout wrap pauses failing_tries next_sleep
startup_ends_example =
    startup_ends checked true 1_000_000 1_000_000 clock two_rounds (try_at 3_000_000 false)
      (failing_tries 10 3_001_000 2_000) refl refl refl (omega arith)
      (
        omega arith,
        omega arith,
        λ h. ground (arith, h),
        (omega arith, omega arith, λ h. ground (arith, h), tt),
      )
      (omega arith, failing_tries-IsTimed 10 3_001_000 2_000) (omega arith) (omega arith)

-- The service is being stopped at the first look, and is gone at the second one.
abbrev held_look : Bool → Look
held_look left = record {
  interrupted = false;
  found = some (record { token = false });
  interrupted_waiting = false;
  mutex = record { token = true };
  left = left;
  branch = takes_token;
  left_behind = left;
}

abbrev looks : Bool → List Look
looks left = held_look left ∷ record (held_look false) { found = none } ∷ []

abbrev answers : Answers
answers = record { started = true; dialed = true; is_running = true }

starts_anew :
    start_service_if_not_already_running_and_connect false answers (looks false)
    ≡ (starts_service ∷ [], true)
unfolding start_service_if_not_already_running_and_connect take_turns take_turn queued_turn try_lock
    lock_or_cancel unlock
starts_anew = refl

left_in_the_queue :
    start_service_if_not_already_running_and_connect false answers (looks true) ≡ ([], false)
unfolding start_service_if_not_already_running_and_connect take_turns take_turn queued_turn try_lock
    lock_or_cancel unlock
left_in_the_queue = refl

served_in_turn_example : IsServedInTurn (looks false)
unfolding start_service_if_not_already_running_and_connect take_turns take_turn queued_turn try_lock
    lock_or_cancel unlock
served_in_turn_example = served_in_turn false answers (looks false) (λ h. ground (arith, h))
