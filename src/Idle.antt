-- ===== src/Idle.antt =====
-- service.go, lines 177-208: the callback of a ready service's idle timer. It holds serviceMutex from the
-- test of the timer to its reset, so it is one step; the stop behind it is stopService.
pub mod Kept
mod Examples
use large_model_proxy.Base.{ℕ, ◌+◌, Bool, true, false, Option, none, some, if◌then◌else◌}
use large_model_proxy.Config.{Config, ServiceConfig, get_idle_timeout}
use large_model_proxy.Manager.{ResourceManager, RunningService}
use large_model_proxy.Eviction.{can_be_stopped}

-- What the callback does: nothing, a stop of the service, or a reset of the timer.
pub data Fired : Type 0 where
  ignores stops resets : Fired

unfoldable pub fire_set_timer :
    Config → ServiceConfig → ℕ → RunningService → ResourceManager → RunningService × Fired
fire_set_timer c s now running m =
    if can_be_stopped m s.name running
    then (running, stops)
    else (record running { idle_timer = some (now + get_idle_timeout c s) }, resets)

-- A nil timer is that of a service which has been cleaned up.
unfoldable pub idle_timer_fires :
    Config → ServiceConfig → Bool → ℕ → RunningService → ResourceManager → RunningService × Fired
unfolding fire_set_timer
idle_timer_fires c s interrupted now running m =
    if interrupted then (running, ignores) else elim running.idle_timer [
      | none ↦ (running, ignores)
      | some at_time ↦ fire_set_timer c s now running m
    ]
