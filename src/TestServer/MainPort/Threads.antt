-- ===== src/TestServer/MainPort/Threads.antt =====
-- test-server/main.go, handleMainPortConnection: what the two threads of a connection leave it in.
use large_model_proxy.Base.{◌≡◌, Bool, true, false, not, ◌||◌, some, ℤ, pos, sub, arith, ◌⊎◌}
use large_model_proxy.TestServer.MainPort.{
  own_pid, Handler, processing, writing, closing, returned, Watcher, announcing, left, Served,
  decrement_connections, handler_step, watcher_step,
}

abbrev pub is_returned : Handler → Bool
is_returned returned = true
is_returned _ = false

-- The reading thread has seen the client leave, and has said so.
abbrev pub has_left : Watcher → Bool
has_left announcing = true
has_left left = true
has_left _ = false

-- The handler has not returned, and the client has not been seen to leave.
abbrev pub is_open : Served → Bool
is_open k = not (is_returned k.handler || has_left k.watcher)

-- Behind the close of srvClosed, or returned without one.
abbrev pub is_ending : Handler → Bool
is_ending closing = true
is_ending returned = true
is_ending _ = false

abbrev pub says_pid : Handler → Bool
says_pid (processing own_pid) = true
says_pid (writing own_pid) = true
says_pid _ = false

-- The connection is taken off the count once it is not open, and a thread that is about to close its
-- channel finds it open.
pub record IsSound (k : Served) : Type 0 where
  pub counted_once : k.decremented ≡ not (is_open k)
  pub client_signals : k.client_closed ≡ true → k.watcher ≡ left
  pub server_signals : k.srv_closed ≡ true → is_ending k.handler ≡ true

-- The process's id is only said by a server that has started.
abbrev pub IsHonest : Bool → Served → Type 0
IsHonest started k =
    (says_pid k.handler ≡ true → started ≡ true) × (k.answer ≡ some own_pid → started ≡ true)

-- One step of a thread: the count `n` follows the connection.
pub record Advanced (started : Bool) (k : Served) (n : ℤ) (j : Served) (m : ℤ) : Type 0 where
  pub sound : IsSound j
  pub honest : IsHonest started j
  pub counted :
      ((is_open j ≡ is_open k) × (m ≡ n))
      ⊎ ((is_open k ≡ true) × (is_open j ≡ false) × (m ≡ sub n (pos 1)))

abbrev pub handled : Served → Handler → Served
handled k h = record k { handler = h }

abbrev pub watched : Served → Watcher → Served
watched k w = record k { watcher = w }

module _ (started : Bool) (n : ℤ) (k j : Served) (m : ℤ) where
  pub handler_step-Advanced :
      (written : Bool) (h : Handler)
      → IsSound (handled k h)
      → IsHonest started (handled k h)
      → handler_step started written n (handled k h) h ≡ some (j, m)
      → Advanced started (handled k h) n j m
  unfolding handler_step decrement_connections
  handler_step-Advanced written h v o e =
      ground (arith, v.counted_once, v.client_signals, v.server_signals)

  pub watcher_step-Advanced :
      (w : Watcher)
      → IsSound (watched k w)
      → IsHonest started (watched k w)
      → watcher_step n (watched k w) w ≡ some (j, m)
      → Advanced started (watched k w) n j m
  unfolding watcher_step decrement_connections
  watcher_step-Advanced w v o e = ground (arith, v.counted_once, v.client_signals, v.server_signals)
