-- ===== src/Pipe/Bound.antt =====
-- connection.go, lines 71-101: how many bytes the pipe holds.
use large_model_proxy.Base.{
  ℕ, ◌≤◌, ◌<◌, ◌≡◌, ◌⊎◌, List, [], ◌∷◌, length, length-append, length-drop, arith, All,
}
use large_model_proxy.Pipe.{
  Pipe, Call, Trace, writes, reads, closes_write, closes_read, write, read, close_write, close_read,
  step, run, new_buffered_pipe,
}

abbrev pub size : Call → ℕ
size (writes p) = length p
size (reads n) = 0
size closes_write = 0
size closes_read = 0

abbrev IsWithin : ℕ → ℕ → Pipe → Type 0
IsWithin limit m b = (b.limit ≡ limit) × ((length b.buf ≤ limit) ⊎ (length b.buf ≤ m))

step-IsWithin :
    (limit m : ℕ) (t : Trace) (c : Call)
    → 0 < limit
    → limit < 9223372036854775808
    → m < 9223372036854775808
    → size c ≤ m
    → IsWithin limit m t.0
    → IsWithin limit m (step t c).0
unfolding step write read close_write close_read
step-IsWithin limit m (b, ins, outs) (writes p) pos l w s h = ground (arith, length-append b.buf p)
step-IsWithin limit m (b, ins, outs) (reads n) pos l w s h = ground (arith, length-drop n b.buf)
step-IsWithin limit m (b, ins, outs) closes_write pos l w s h = h
step-IsWithin limit m (b, ins, outs) closes_read pos l w s h = h

run-IsWithin :
    (limit m : ℕ) (t : Trace) (cs : List Call)
    → 0 < limit
    → limit < 9223372036854775808
    → m < 9223372036854775808
    → All (λ c. size c ≤ m) cs
    → IsWithin limit m t.0
    → IsWithin limit m (run t cs).0
unfolding run
run-IsWithin limit m t [] pos l w s h = h
run-IsWithin limit m t (c ∷ cs) pos l w s h =
    run-IsWithin limit m (step t c) cs pos l w s.1 (step-IsWithin limit m t c pos l w s.0 h)

-- With a limit other than 0, and lengths that Go's `int` holds, the buffer never holds more bytes
-- than the limit, or than the longest slice that was passed to Write, whichever is more.
pub buffer_bounded :
    (limit m : ℕ) (cs : List Call)
    → 0 < limit
    → limit < 9223372036854775808
    → m < 9223372036854775808
    → All (λ c. size c ≤ m) cs
    → let b = (run (new_buffered_pipe limit, [], []) cs).0 in
      (length b.buf ≤ limit) ⊎ (length b.buf ≤ m)
unfolding new_buffered_pipe
buffer_bounded limit m cs pos l w s =
    (run-IsWithin limit m (new_buffered_pipe limit, [], []) cs pos l w s (omega arith)).1
