-- ===== src/TestServer/MainPort.antt =====
-- test-server/main.go, lines 18-20 and 98-221: the main port. A connection has two threads, the handler
-- and the one that reads until the client leaves; each row of a step is what a thread does up to
-- its next look at shared data. An update of mainPortConnections is one step here; Go promises that
-- only of updates under a lock, which the code does not take. A sleep is the time between two steps.
pub mod Threads
pub mod Counter
use large_model_proxy.Base.{
  ℕ, zero, suc, Bool, true, false, List, [], ◌∷◌, ◌++◌, Option, none, some, ℤ, pos, add, sub,
  if◌then◌else◌, get_elem?,
}
use large_model_proxy.Services.Heap.{set}

-- The text of the answer: the process's id, or the error of a server that still starts.
pub data Content : Type 0 where
  own_pid server_still_starting : Content

-- Where the handler stands: before its look at appStarted; before its look at clientClosed; before the
-- write; in the sleep behind it; behind the close of srvClosed; behind its return.
pub data Handler : Type 0 where
  deciding : Handler
  processing writing : Content → Handler
  pausing closing returned : Handler

-- Where the reading thread stands: in Read; behind an error of Read that it takes for the client's;
-- behind its decrement; behind its return, without and with a close of clientClosed.
pub data Watcher : Type 0 where
  reading leaving announcing quiet left : Watcher

pub record Served : Type 0 where
  pub handler : Handler
  pub watcher : Watcher
  pub decremented : Bool
  pub srv_closed : Bool
  pub client_closed : Bool
  pub answer : Option Content

pub data Listener : Type 0 where
  not_yet accepting exited : Listener

-- `timer` says that AfterFunc will set appStarted.
pub record Server : Type 0 where
  pub listener : Listener
  pub timer : Bool
  pub app_started : Bool
  pub main_port_connections : ℤ
  pub connections : List Served

abbrev pub is_zero_duration : ℕ → Bool
is_zero_duration zero = true
is_zero_duration (suc n) = false

-- listenOnMainPort behind its first sleep, with the startup duration and what net.Listen returns.
unfoldable pub listen_on_main_port : ℕ → Bool → Server → Server
listen_on_main_port startup_duration bound s =
    let now = is_zero_duration startup_duration in
    record s {
      listener = if bound then accepting else exited;
      timer = if now then s.timer else true;
      app_started = if now then true else s.app_started;
    }

-- decrementConnections: the first call takes one off.
unfoldable pub decrement_connections : ℤ → Served → Served × ℤ
decrement_connections n k =
    if k.decremented then (k, n) else (record k { decremented = true }, sub n (pos 1))

abbrev pub content : Bool → Content
content true = own_pid
content false = server_still_starting

-- The handler's next step; `written` is what conn.Write returns.
unfoldable pub handler_step : Bool → Bool → ℤ → Served → Handler → Option (Served × ℤ)
unfolding decrement_connections
handler_step app_started written n k deciding =
    some (record k { handler = processing (content app_started) }, n)
handler_step app_started written n k (processing c) =
    if k.client_closed
    then some (record k { handler = returned }, n)
    else some (record k { handler = writing c }, n)
handler_step app_started written n k (writing c) =
    some (record k { handler = pausing; answer = if written then some c else none }, n)
handler_step app_started written n k pausing =
    some (record k { handler = closing; srv_closed = true }, n)
handler_step app_started written n k closing =
    some (decrement_connections n (record k { handler = returned }))
handler_step app_started written n k returned = none

-- The reading thread's next step, which a failed Read begins.
unfoldable pub watcher_step : ℤ → Served → Watcher → Option (Served × ℤ)
unfolding decrement_connections
watcher_step n k reading =
    if k.srv_closed
    then some (record k { watcher = quiet }, n)
    else some (record k { watcher = leaving }, n)
watcher_step n k leaving = some (decrement_connections n (record k { watcher = announcing }))
watcher_step n k announcing = some (record k { watcher = left; client_closed = true }, n)
watcher_step n k quiet = none
watcher_step n k left = none

pub data Action : Type 0 where
  listens : ℕ → Bool → Action
  app_starts : Action
  -- a connection is accepted, up to the start of the reading thread
  receives : Action
  handles : ℕ → Bool → Action
  watches : ℕ → Action

abbrev pub received : Served
received = record {
  handler = deciding;
  watcher = reading;
  decremented = false;
  srv_closed = false;
  client_closed = false;
  answer = none;
}

unfoldable pub put : Server → ℕ → Option (Served × ℤ) → Option Server
put s p none = none
put s p (some (k, n)) =
    some (record s { main_port_connections = n; connections = set s.connections p k })

unfoldable pub at : Server → ℕ → (Served → Option (Served × ℤ)) → Option Server
unfolding put
at s p f = elim (get_elem? s.connections p) [ none ↦ none | some k ↦ put s p (f k) ]

-- The listener's steps by its state: behind os.Exit there are none.
unfoldable pub listener_step : Server → Listener → Action → Option Server
unfolding listen_on_main_port handler_step watcher_step at
listener_step s not_yet (listens startup_duration bound) =
    some (listen_on_main_port startup_duration bound s)
listener_step s accepting app_starts =
    if s.timer then some (record s { timer = false; app_started = true }) else none
listener_step s accepting receives = some (record s {
  main_port_connections = add s.main_port_connections (pos 1);
  connections = s.connections ++ received ∷ [];
})
listener_step s accepting (handles p written) =
    at s p (λ k. handler_step s.app_started written s.main_port_connections k k.handler)
listener_step s accepting (watches p) =
    at s p (λ k. watcher_step s.main_port_connections k k.watcher)
listener_step s _ _ = none

-- A schedule; a step that is not possible is passed over.
unfoldable pub run : Server → List Action → Server
unfolding listener_step
run s [] = s
run s (a ∷ rest) = elim (listener_step s s.listener a) [ none ↦ run s rest | some t ↦ run t rest ]
