-- ===== src/Pipe/Examples.antt =====
-- A pipe with room for four bytes.
use large_model_proxy.Base.{
  ℕ, ◌≤◌, ◌<◌, take, ◌≡◌, ◌≢◌, refl, ◌⊎◌, ◌++◌, List, [], ◌∷◌, true, false, length, arith,
}
use large_model_proxy.Pipe.{
  Pipe, Call, writes, reads, closes_write, run, step, write, read, close_write, close_read,
  new_buffered_pipe, read_waits, write_closed, eof, wrote, got,
}
use large_model_proxy.Pipe.Order.{run-new_buffered_pipe, read-eof}
use large_model_proxy.Pipe.Bound.{buffer_bounded}
use large_model_proxy.Pipe.Progress.{drain, write_waits-progress, closed_ends}

abbrev calls : List Call
calls =
    writes (1 ∷ 2 ∷ 3 ∷ []) ∷ writes (4 ∷ 5 ∷ []) ∷ reads 2 ∷ writes (6 ∷ []) ∷ closes_write ∷ []

abbrev all_calls : List Call
all_calls = writes (1 ∷ 2 ∷ []) ∷ reads 2 ∷ closes_write ∷ []

-- The second slice has to wait and is not taken in; the third one finds room.
calls_hold : (run (new_buffered_pipe 4, [], []) calls).0.buf ≡ 3 ∷ 6 ∷ []
unfolding run new_buffered_pipe step write read close_write
calls_hold = refl

run-new_buffered_pipe_example :
    let (b, ins, outs) = run (new_buffered_pipe 4, [], []) calls in outs ++ b.buf ≡ ins
run-new_buffered_pipe_example = run-new_buffered_pipe 4 calls

read-eof_example :
    let (b, ins, outs) = run (new_buffered_pipe 4, [], []) all_calls in
    (b.writer_done ≡ true) × (outs ≡ ins)
unfolding run new_buffered_pipe step write read close_write
read-eof_example = read-eof 4 7 all_calls refl

buffer_bounded_example :
    let b = (run (new_buffered_pipe 4, [], []) calls).0 in (length b.buf ≤ 4) ⊎ (length b.buf ≤ 3)
buffer_bounded_example =
    buffer_bounded 4 3 calls (omega arith) (omega arith) (omega arith) (omega arith)

abbrev filled : Pipe
filled = record { buf = 1 ∷ 2 ∷ 3 ∷ []; limit = 4; writer_done = false; closed = false }

abbrev drained : Pipe
drained = record { buf = []; limit = 4; writer_done = false; closed = false }

write_waits-progress_example :
    ((c : ℕ) × (cs : List ℕ) × ((read filled 2).1 ≡ got (c ∷ cs)))
    × ((write (drain 2 2 filled) (4 ∷ 5 ∷ [])).1 ≡ wrote 2)
unfolding write
write_waits-progress_example =
    write_waits-progress filled (4 ∷ 5 ∷ []) 2 2 refl (omega arith) (omega arith)

closed_ends_example :
    ((write (close_read filled) (4 ∷ [])).1 ≡ write_closed)
    × ((read (close_write filled) 2).1 ≢ read_waits)
    × (((filled.buf ≡ []) × ((read (close_write filled) 2).1 ≡ eof))
        ⊎ ((0 < length filled.buf) × ((read (close_write filled) 2).1 ≡ got (take 2 filled.buf))))
closed_ends_example = closed_ends filled (4 ∷ []) 2
