-- ===== src/Pipe.antt =====
-- connection.go, lines 58-135: bufferedPipe, the bounded buffer between a client and its service.
-- The mutex makes each pass through a method's loop atomic. A pass that reaches cond.Wait is `waits`,
-- and the caller makes another pass after some other call; a broadcast wakes every waiter.
pub mod Order
pub mod Bound
pub mod Progress
mod Examples
use large_model_proxy.Base.{
  ℕ, zero, suc, ◌+◌, ◌%◌, List, [], ◌∷◌, ◌++◌, Bool, true, false, ◌&&◌, ltb, ◌==◌, if◌then◌else◌,
  length, take, drop, min,
}

-- buf, limit, writerDone and closed of the Go struct.
pub record Pipe : Type 0 where
  pub buf : List ℕ
  pub limit : ℕ
  pub writer_done : Bool
  pub closed : Bool

unfoldable pub new_buffered_pipe : ℕ → Pipe
new_buffered_pipe limit = record { buf = []; limit = limit; writer_done = false; closed = false }

pub data Written : Type 0 where
  wrote : ℕ → Written
  write_closed : Written
  write_waits : Written

pub data Delivered : Type 0 where
  got : List ℕ → Delivered
  eof read_closed read_waits : Delivered

-- The condition of the loop in Write: uint64 sums wrap.
unfoldable pub is_full : Pipe → List ℕ → Bool
is_full b p =
    ltb 0 b.limit
    && ltb 0 (length b.buf)
    && ltb b.limit ((length b.buf + length p) % 18446744073709551616)

unfoldable pub write : Pipe → List ℕ → Pipe × Written
unfolding is_full
write b p =
    if is_full b p
    then (if b.closed then (b, write_closed) else (b, write_waits))
    else if b.closed
    then (b, write_closed)
    else (record b { buf = b.buf ++ p }, wrote (length p))

unfoldable pub close_write : Pipe → Pipe
close_write b = record b { writer_done = true }

unfoldable pub close_read : Pipe → Pipe
close_read b = record b { closed = true }

-- Read into a slice of `n` bytes.
unfoldable pub read : Pipe → ℕ → Pipe × Delivered
read b n =
    if length b.buf == 0
    then (if b.writer_done
        then (b, eof)
        else if b.closed
        then (b, read_closed)
        else (b, read_waits))
    else (record b { buf = drop n b.buf }, got (take n b.buf))

pub data Call : Type 0 where
  writes : List ℕ → Call
  reads : ℕ → Call
  closes_write closes_read : Call

-- The bytes that a call takes in, and those that it hands out.
abbrev pub taken : List ℕ → Written → List ℕ
taken p (wrote n) = p
taken p write_closed = []
taken p write_waits = []

abbrev pub handed : Delivered → List ℕ
handed (got bytes) = bytes
handed eof = []
handed read_closed = []
handed read_waits = []

abbrev pub Trace : Type 0
Trace = Pipe × List ℕ × List ℕ

-- The pipe after a pass, with all the bytes taken in and all those handed out so far.
unfoldable pub step : Trace → Call → Trace
step (b, ins, outs) (writes p) = let (b', r) = write b p in (b', ins ++ taken p r, outs)
step (b, ins, outs) (reads n) = let (b', r) = read b n in (b', ins, outs ++ handed r)
step (b, ins, outs) closes_write = (close_write b, ins, outs)
step (b, ins, outs) closes_read = (close_read b, ins, outs)

unfoldable pub run : Trace → List Call → Trace
run t [] = t
run t (c ∷ cs) = run (step t c) cs
