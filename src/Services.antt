-- ===== src/Services.antt =====
-- service.go, lines 72-213, and service_process.go, lines 177-321: the life of a service's instances.
-- Each critical section of startService, stopRunningService and monitorProcess is one
-- atomic step; which instance moves next is the environment's choice. The steps are those of a proxy
-- that has not been interrupted: shutdown skips the clean-up and ends the program.
pub mod Heap
pub mod Sums
pub mod Locks
pub mod Listing
pub mod Moves
pub mod Stops
pub mod Steps
pub mod Accounting
pub mod Capacity
pub mod Live
pub mod Registry
mod Examples
use large_model_proxy.Base.{
  ℕ, zero, suc, ◌+◌, String, Bool, true, false, not, ◌&&◌, ◌||◌, List, [], ◌∷◌, ◌++◌, Dict, lookup,
  insert, delete, Option, none, some, ◌==◌, if◌then◌else◌, length, get_elem?, str_eq,
}
use large_model_proxy.LogWriter.{Writer, final_flush}
use large_model_proxy.Config.{Config, ServiceConfig, get_idle_timeout}
use large_model_proxy.Manager.{ResourceManager, RunningService, broadcast_resource_changes, keys}
use large_model_proxy.Idle.{idle_timer_fires}
use large_model_proxy.Resources.{
  release_resources, release_reserved_resources, reserve_pass, Pass, reserved, waits_for_checks,
  lacks,
}
use Heap.{set}

-- Where the startService call of an instance stands. `waiting` is inside reserveResources; `taken`
-- is behind it and before the next critical section; `launching` is before the command runs;
-- `starting` is the health check and the first connection; `failing` is behind the unlock of an
-- error path that still owes the reserved amounts; `ready` and `gone` are behind the return.
pub data Phase : Type 0 where
  waiting taken launching starting failing ready gone : Phase

-- A RunningService with the call that made it. `stopping` says that stopRunningService holds its mutex.
pub record Instance : Type 0 where
  pub service : ServiceConfig
  pub phase : Phase
  pub stopping : Bool
  pub running : RunningService

pub record System : Type 0 where
  pub manager : ResourceManager
  pub instances : List Instance

unfoldable pub new_running_service : ℕ → RunningService
new_running_service now = record {
  manage_mutex = true;
  cmd = none;
  is_waiting_for_resources = true;
  is_ready = false;
  last_used = some now;
  idle_timer = none;
  resources_released = false;
  resources_reserved = false;
  stdout_writer = none;
  stderr_writer = none;
}

-- FinalFlush does nothing on a nil writer.
abbrev pub flush : Option Writer → Option Writer
flush none = none
flush (some w) = some (final_flush w)

abbrev pub points_to : Option ℕ → ℕ → Bool
points_to none p = false
points_to (some q) p = q == p

-- The books and the list of running services after a clean-up of the instance `p`.
unfoldable pub clean_up_manager :
    ServiceConfig → ℕ → RunningService → ResourceManager → ResourceManager
clean_up_manager s p rs m =
    let m₁ = if rs.resources_reserved then release_resources s.resource_requirements m else m in
    let m₂ =
      if points_to (lookup s.name m₁.running_services) p
      then record m₁ { running_services = delete s.name m₁.running_services }
      else m₁ in
    broadcast_resource_changes m₂ (keys s.resource_requirements) true

-- cleanUpStoppedServiceWhenServiceMutexIsLocked.
unfoldable pub clean_up :
    ServiceConfig → ℕ → Bool → RunningService → ResourceManager → RunningService × ResourceManager
clean_up s p should_release rs m =
    if not should_release || rs.resources_released then (rs, m) else (
      record rs {
        resources_released = true;
        idle_timer = none;
        stdout_writer = flush rs.stdout_writer;
        stderr_writer = flush rs.stderr_writer;
      },
      clean_up_manager s p rs m,
    )

unfoldable pub put : System → ℕ → Instance → ResourceManager → System
put y p i m = record { manager = m; instances = set y.instances p i }

-- What an instance becomes by a clean-up, and the system with it.
unfoldable pub clean_instance : System → ℕ → Bool → Instance → System
unfolding put
clean_instance y p should_release i =
    let (rs, m) = clean_up i.service p should_release i.running y.manager in
    put y p (record i { running = rs }) m

pub data Action : Type 0 where
  -- startService up to the unlock behind the registration
  begin : ServiceConfig → ℕ → Action
  -- one round of reserveResources
  reserve : ℕ → Bool → Action
  -- reserveResources has returned false
  give_up : ℕ → Action
  -- the flags behind reserveResources
  confirm : ℕ → Action
  -- runServiceCommand has failed, or has started a process
  launch_fails : ℕ → Action
  launches : ℕ → ℕ → Option Writer → Option Writer → Action
  -- the health check or the first connection has failed: unlock, and later give the amounts back
  start_fails : ℕ → Action
  returns_reserved : ℕ → Action
  -- a connection stands: the end of startService
  becomes_ready : ℕ → ℕ → Action
  -- stopRunningService takes the mutex, and is done with the process or could not kill it
  stop_begins : String → Action
  stop_ends : ℕ → Bool → Action
  -- the callback of the idle timer, with the time; the stop that it may ask for is a stop_begins
  idle_fires : ℕ → ℕ → Action
  -- monitorProcess has seen the process end
  process_exits : ℕ → Action

unfoldable pub begin_service : ServiceConfig → ℕ → System → Option System
unfolding new_running_service
begin_service s now y = elim (lookup s.name y.manager.running_services) [
  | some p ↦ none
  | none ↦ some (record {
    manager =
        let p = length y.instances in
        record y.manager { running_services = insert s.name p y.manager.running_services };
    instances =
        y.instances
        ++ record {
          service = s;
          phase = waiting;
          stopping = false;
          running = new_running_service now;
        }
          ∷ [];
  })
]

unfoldable pub after_pass : System → ℕ → Instance → ResourceManager × Pass → System
unfolding put
after_pass y p i (m, reserved) = put y p (record i { phase = taken }) m
after_pass y p i (m, waits_for_checks rs) = put y p i m
after_pass y p i (m, lacks r) = put y p i m

abbrev pub default_true : Option Bool → Bool
default_true none = true
default_true (some b) = b

-- The step of one instance, by the phase in which the code takes it; `none` is no step.
unfoldable pub move : Config → System → ℕ → Instance → Phase → Action → Option System
unfolding clean_instance after_pass
move c y p i waiting (reserve _ recheck) =
    elim (reserve_pass c i.service.resource_requirements i.service.name recheck y.manager) [
      | none ↦ none
      | some r ↦ some (after_pass y p i r)
    ]
move c y p i waiting (give_up _) = some (
    clean_instance y p true
      (record i { phase = gone; running = record i.running { manage_mutex = false } }))
move c y p i taken (confirm _) = some (
    put y p
      (record i {
        phase = launching;
        running = record i.running { is_waiting_for_resources = false; resources_reserved = true };
      })
      y.manager)
move c y p i launching (launch_fails _) =
    let m = release_reserved_resources i.service.resource_requirements y.manager in
    some (
      clean_instance (record y { manager = m }) p true
        (record i { phase = gone; running = record i.running { manage_mutex = false } }))
move c y p i launching (launches _ pid out err) = some (
    put y p
      (record i {
        phase = starting;
        running = record i.running { cmd = some pid; stdout_writer = out; stderr_writer = err };
      })
      y.manager)
move c y p i starting (start_fails _) = some (
    put y p (record i { phase = failing; running = record i.running { manage_mutex = false } })
      y.manager)
move c y p i failing (returns_reserved _) = some (
    put y p (record i { phase = gone })
      (release_reserved_resources i.service.resource_requirements y.manager))
move c y p i starting (becomes_ready _ now) = some (
    put y p
      (record i {
        phase = ready;
        running = record i.running {
          is_ready = true;
          idle_timer = some (now + get_idle_timeout c i.service);
          manage_mutex = false;
        };
      })
      (release_reserved_resources i.service.resource_requirements y.manager))
move c y p i ready (idle_fires _ now) = some (
    put y p (record i { running = (idle_timer_fires c i.service false now i.running y.manager).0 })
      y.manager)
move c y p i _ _ = none

unfoldable pub at : System → ℕ → (Instance → Option System) → Option System
at y p f = elim (get_elem? y.instances p) [ none ↦ none | some i ↦ f i ]

-- The lock of manageMutex, which waits while the mutex is held.
unfoldable pub stop_begin : System → ℕ → Instance → Option System
unfolding put
stop_begin y p i =
    if i.running.manage_mutex
    then none
    else some (
        put y p (record i { stopping = true; running = record i.running { manage_mutex = true } })
          y.manager)

-- The end of stopRunningService: a clean-up, unless the process could not be killed, and the unlock.
unfoldable pub stop_end : System → ℕ → Bool → Instance → Option System
unfolding clean_instance
stop_end y p killed i =
    if i.stopping
    then some (
        clean_instance y p killed
          (record i { stopping = false; running = record i.running { manage_mutex = false } }))
    else none

-- monitorProcess, which runs from the start of the process.
unfoldable pub process_exit : System → ℕ → Instance → Option System
unfolding clean_instance
process_exit y p i = elim i.running.cmd [
  | none ↦ none
  | some pid ↦ some (clean_instance y p (default_true i.service.consider_stopped_on_process_exit) i)
]

unfoldable pub step : Config → System → Action → Option System
unfolding move at begin_service stop_begin stop_end process_exit
step c y (begin s now) = begin_service s now y
step c y (stop_begins name) = elim (lookup name y.manager.running_services) [
  | none ↦ none
  | some p ↦ at y p (stop_begin y p)
]
step c y (stop_ends p killed) = at y p (stop_end y p killed)
step c y (process_exits p) = at y p (process_exit y p)
step c y (reserve p recheck) = at y p (λ i. move c y p i i.phase (reserve p recheck))
step c y (give_up p) = at y p (λ i. move c y p i i.phase (give_up p))
step c y (confirm p) = at y p (λ i. move c y p i i.phase (confirm p))
step c y (launch_fails p) = at y p (λ i. move c y p i i.phase (launch_fails p))
step c y (launches p pid out err) = at y p (λ i. move c y p i i.phase (launches p pid out err))
step c y (start_fails p) = at y p (λ i. move c y p i i.phase (start_fails p))
step c y (returns_reserved p) = at y p (λ i. move c y p i i.phase (returns_reserved p))
step c y (becomes_ready p now) = at y p (λ i. move c y p i i.phase (becomes_ready p now))
step c y (idle_fires p now) = at y p (λ i. move c y p i i.phase (idle_fires p now))

-- A schedule; a step that is not possible is passed over.
unfoldable pub run : Config → System → List Action → System
run c y [] = y
run c y (a ∷ rest) = elim (step c y a) [ none ↦ run c y rest | some z ↦ run c z rest ]
