-- ===== src/Forwarding.antt =====
-- connection.go, lines 296-356: forwardConnection, with the goroutine of startClientReadMonitor that feeds
-- it. The goroutines' steps come in any order: an io.Copy is a list of steps, each of which reads a
-- slice and writes it, and the sockets' bytes, ends and errors are arguments. Log lines are left out.
pub mod Endings
pub mod Delivery
mod Examples
use large_model_proxy.Base.{
  ℕ, Bool, true, false, not, ◌&&◌, List, [], ◌∷◌, ◌++◌, take, Option, none, some, if◌then◌else◌,
}
use large_model_proxy.Pipe.{
  Pipe, Delivered, Written, got, eof, read_closed, read_waits, read, write, close_write, taken,
  handed,
}

-- Where a goroutine stands: in its io.Copy, behind it, behind the flag, or behind the Close.
pub data Stage : Type 0 where
  copying copied flagged done : Stage

-- The pipe of the client's bytes, with the bytes in it at the start and all that it took in since; what the service and the client
-- have been sent; which connections are open; the goroutines; whether the copy to the service ended at
-- the end of the client's bytes; and EOFOnWriteFromServerToClient.
pub record Forward : Type 0 where
  pub pipe : Pipe
  pub received : List ℕ
  pub to_service : List ℕ
  pub to_client : List ℕ
  pub service_is_open : Bool
  pub client_is_open : Bool
  pub up : Stage
  pub down : Stage
  pub ended_at_eof : Bool
  pub eof_on_write_from_server_to_client : Option Bool

unfoldable pub new_forward : Pipe → Forward
new_forward pipe = record {
  pipe = pipe;
  received = pipe.buf;
  to_service = [];
  to_client = [];
  service_is_open = true;
  client_is_open = true;
  up = copying;
  down = copying;
  ended_at_eof = false;
  eof_on_write_from_server_to_client = none;
}

-- `ups` and `downs` are the goroutines' steps behind their io.Copy. A write that fails has sent the
-- first bytes of the slice that was read for it, as many as the second number says.
pub data Action : Type 0 where
  monitor_reads : List ℕ → Action
  monitor_ends : Action
  up_copies : ℕ → Action
  up_fails : ℕ → ℕ → Action
  down_copies : List ℕ → Action
  down_ends : Action
  ups downs : Action

abbrev pub mark : Bool → Option Bool → Option Bool
mark b none = some b
mark b (some old) = some old

abbrev pub copy_slice : Forward → Pipe × Delivered → Forward
copy_slice f (pipe, got bytes) = record f { pipe = pipe; to_service = f.to_service ++ bytes }
copy_slice f (pipe, eof) = record f { pipe = pipe; up = copied; ended_at_eof = true }
copy_slice f (pipe, read_closed) = record f { pipe = pipe; up = copied }
copy_slice f (pipe, read_waits) = f

abbrev pub fail_slice : Forward → ℕ → Pipe × Delivered → Forward
fail_slice f sent (pipe, slice) = record f {
  pipe = pipe;
  to_service = f.to_service ++ take sent (handed slice);
  up = copied;
}

-- The goroutine that copies to the service closes its connection, and so does the other one.
abbrev pub step_up : Forward → Stage → Forward
step_up f copying = f
step_up f copied = record f {
  up = flagged;
  eof_on_write_from_server_to_client = mark true f.eof_on_write_from_server_to_client;
}
step_up f flagged = record f { up = done; service_is_open = false }
step_up f done = f

abbrev pub step_down : Forward → Stage → Forward
step_down f copying = f
step_down f copied = record f {
  down = flagged;
  eof_on_write_from_server_to_client = mark false f.eof_on_write_from_server_to_client;
}
step_down f flagged = record f { down = done; client_is_open = false }
step_down f done = f

abbrev pub is_copying : Stage → Bool
is_copying copying = true
is_copying _ = false

-- A step that is not possible changes nothing.
unfoldable pub step : Forward → Action → Forward
step f (monitor_reads bytes) =
    let (pipe, written) = write f.pipe bytes in
    if f.client_is_open && not f.pipe.writer_done
    then record f { pipe = pipe; received = f.received ++ taken bytes written }
    else f
step f monitor_ends = record f { pipe = close_write f.pipe }
step f (up_copies n) =
    if is_copying f.up && f.service_is_open then copy_slice f (read f.pipe n) else f
step f (up_fails n sent) = if is_copying f.up then fail_slice f sent (read f.pipe n) else f
step f (down_copies bytes) =
    if is_copying f.down && f.service_is_open && f.client_is_open
    then record f { to_client = f.to_client ++ bytes }
    else f
step f down_ends = if is_copying f.down then record f { down = copied } else f
step f ups = step_up f f.up
step f downs = step_down f f.down

unfoldable pub run : Forward → List Action → Forward
run f [] = f
run f (a ∷ rest) = run (step f a) rest

-- wg.Wait returns when both goroutines are done, and the flag decides on the reason that is logged; a
-- nil flag panics.
pub data Outcome : Type 0 where
  running panics : Outcome
  returns : Bool → Outcome

abbrev pub with_reason : Option Bool → Outcome
with_reason none = panics
with_reason (some reason) = returns reason

abbrev pub when_done : Stage → Stage → Outcome → Outcome
when_done done done outcome = outcome
when_done up down outcome = running

unfoldable pub forward_connection : Forward → Outcome
forward_connection f = when_done f.up f.down (with_reason f.eof_on_write_from_server_to_client)
