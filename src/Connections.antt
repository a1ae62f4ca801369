-- ===== src/Connections.antt =====
-- connection.go, lines 137-232: the life of the client connections. Each critical section of
-- handleConnection is one atomic step, and which connection moves next is the environment's choice.
-- `others` is a step of any other part of the program: it may change everything but the counts of
-- connections, which incrementConnection alone writes.
pub mod Counts
pub mod Changes
pub mod Schedule
pub mod Busy
mod Proxy
mod Examples
use large_model_proxy.Base.{
  ℕ, ◌*◌, ◌^◌, String, Bool, true, false, List, [], ◌∷◌, ◌++◌, Dict, Option, none, some, ℤ, pos,
  negsuc, get_elem?, if◌then◌else◌,
}
use large_model_proxy.Config.{Config, ServiceConfig}
use large_model_proxy.Manager.{ResourceManager, RunningService, increment_connection}
use large_model_proxy.Eviction.{track_service_last_used}
use large_model_proxy.Pipe.{Pipe, new_buffered_pipe, close_write}
use large_model_proxy.Services.Heap.{set}

-- 16 MiB, unless the configuration says otherwise.
unfoldable pub client_request_buffer_limit : Config → ℕ
client_request_buffer_limit c = elim c.client_request_buffer_limit_bytes [
  | none ↦ 16 * 2 ^ 20
  | some limit ↦ limit
]

-- The pipe that startClientReadMonitor makes, and what its goroutine does when the client's side ends:
-- the pipe is closed for writing, and the channel that reports the disconnect is closed.
unfoldable pub start_client_read_monitor : Config → Pipe × Bool
unfolding client_request_buffer_limit
start_client_read_monitor c = (new_buffered_pipe (client_request_buffer_limit c), false)

unfoldable pub client_read_ends : Pipe × Bool → Pipe × Bool
client_read_ends (pipe, disconnected) = (close_write pipe, true)

-- Where a handleConnection call stands: `connecting` waits for a connection to the service, `connected`
-- has one and has not counted it yet, `leaving` is behind the forwarding or a failed first write.
pub data Phase : Type 0 where
  connecting connected proxying leaving closed : Phase

pub record Connection : Type 0 where
  pub service : ServiceConfig
  pub phase : Phase

pub record Traffic : Type 0 where
  pub manager : ResourceManager
  pub heap : List RunningService
  pub connections : List Connection

pub data Action : Type 0 where
  -- a client has come; the flag says that the proxy is shutting down
  accepts : ServiceConfig → Bool → Action
  -- startServiceIfNotAlreadyRunningAndConnect has returned nil, or a connection
  fails : ℕ → Action
  connects : ℕ → ℕ → Action
  -- the connection is counted as proxied
  counts : ℕ → Action
  -- the bytes read before cannot be written, or the forwarding has ended
  write_fails : ℕ → Action
  forwarded : ℕ → ℕ → Action
  -- the deferred end of the call
  leaves : ℕ → Action
  others : ResourceManager → List RunningService → Action

abbrev pub joined : Traffic → Connection → ResourceManager → Traffic
joined t k m = record t { manager = m; connections = t.connections ++ k ∷ [] }

unfoldable pub accept : Dict ServiceConfig → ServiceConfig → Bool → Traffic → Traffic
accept configs s interrupted t =
    if interrupted
    then joined t (record { service = s; phase = closed }) t.manager
    else joined t (record { service = s; phase = connecting })
        (increment_connection configs t.manager s.name (pos 0) (pos 1))

abbrev pub placed : Traffic → ℕ → Connection → Phase → ResourceManager → Traffic
placed t p k phase m = record t {
  manager = m;
  connections = set t.connections p (record k { phase = phase });
}

-- The step of one connection, by the phase in which the code takes it; `none` is no step.
unfoldable pub move :
    Config → Dict ServiceConfig → Traffic → ℕ → Connection → Phase → Action → Option Traffic
move c configs t p k connecting (fails _) =
    some (
      placed t p k closed
        (increment_connection configs t.manager k.service.name (pos 0) (negsuc 0)))
move c configs t p k connecting (connects _ now) = some (record (placed t p k connected t.manager) {
  heap = track_service_last_used c k.service now t.manager t.heap;
})
move c configs t p k connected (counts _) = some (
    placed t p k proxying
      (increment_connection configs t.manager k.service.name (pos 1) (negsuc 0)))
move c configs t p k proxying (write_fails _) = some (placed t p k leaving t.manager)
move c configs t p k proxying (forwarded _ now) = some (record (placed t p k leaving t.manager) {
  heap = track_service_last_used c k.service now t.manager t.heap;
})
move c configs t p k leaving (leaves _) =
    some (
      placed t p k closed
        (increment_connection configs t.manager k.service.name (negsuc 0) (pos 0)))
move c configs t p k _ _ = none

abbrev pub at : Traffic → ℕ → (Connection → Option Traffic) → Option Traffic
at t p f = elim (get_elem? t.connections p) [ none ↦ none | some k ↦ f k ]

unfoldable pub step : Config → Dict ServiceConfig → Traffic → Action → Option Traffic
unfolding accept move
step c configs t (accepts s interrupted) = some (accept configs s interrupted t)
step c configs t (others m heap) =
    some (record t {
      manager = record m { connection_stats = t.manager.connection_stats };
      heap = heap;
    })
step c configs t (fails p) = at t p (λ k. move c configs t p k k.phase (fails p))
step c configs t (connects p now) = at t p (λ k. move c configs t p k k.phase (connects p now))
step c configs t (counts p) = at t p (λ k. move c configs t p k k.phase (counts p))
step c configs t (write_fails p) = at t p (λ k. move c configs t p k k.phase (write_fails p))
step c configs t (forwarded p now) = at t p (λ k. move c configs t p k k.phase (forwarded p now))
step c configs t (leaves p) = at t p (λ k. move c configs t p k k.phase (leaves p))

-- A schedule; a step that is not possible is passed over.
unfoldable pub run : Config → Dict ServiceConfig → Traffic → List Action → Traffic
run c configs t [] = t
run c configs t (a ∷ rest) = elim (step c configs t a) [
  | none ↦ run c configs t rest
  | some u ↦ run c configs u rest
]
