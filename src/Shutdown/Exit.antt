-- ===== src/Shutdown/Exit.antt =====
-- service_process.go, lines 248-291: monitorProcess behind the end of the process.
use Prim.Native.String.{◌++◌ as append}
use large_model_proxy.Base.{
  ℕ, ◌≡◌, refl, String, Bool, false, ◌&&◌, Option, none, some, ℤ, if◌then◌else◌,
}
use large_model_proxy.Config.{ServiceConfig}
use large_model_proxy.Manager.{ResourceManager, RunningService}
use large_model_proxy.Services.{
  Instance, System, clean_up, clean_instance, put, default_true, process_exit,
}

-- The log line, with the decimal of a number, the exit code if it is known, and the error's text.
abbrev pub exit_code : (ℤ → String) → Option ℤ → String
exit_code show none = " with unknown exit code"
exit_code show (some code) = append " with exit code " (show code)

abbrev pub exit_error : Option String → String
exit_error none = ""
exit_error (some e) = append " and an error: " e

unfoldable pub exit_message : (ℤ → String) → String → ℤ → Option ℤ → Option String → String
exit_message show name pid code error = append "[" (
    append name (
      append "] Process with pid " (
        append (show pid)
          (append " terminated" (append (exit_code show code) (exit_error error))))))

-- A proxy that shuts down cleans up only if it gets serviceMutex at once.
unfoldable pub monitor_process :
    Bool
    → Bool
    → ServiceConfig
    → ℕ
    → RunningService
    → ResourceManager
    → RunningService × ResourceManager
monitor_process interrupted is_locked s p running m =
    if interrupted && is_locked
    then (running, m)
    else clean_up s p (default_true s.consider_stopped_on_process_exit) running m

-- The step of Services is this function in a proxy that is not interrupted, whoever holds the mutex before.
process_exit-monitor_process :
    (y : System) (p pid : ℕ) (i : Instance) (is_locked : Bool)
    → i.running.cmd ≡ some pid
    → process_exit y p i
      ≡ some (
          let result = monitor_process false is_locked i.service p i.running y.manager in
          put y p (record i { running = result.0 }) result.1)
unfolding process_exit clean_instance monitor_process
process_exit-monitor_process y p pid i is_locked h = rw h refl
