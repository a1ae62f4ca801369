-- ===== src/Pipe/Order.antt =====
-- connection.go, lines 79-150: bytes leave the pipe in the order in which they came, none lost.
use large_model_proxy.Base.{
  ℕ, ◌≡◌, refl, sym, ap, ◌∙◌, List, [], ◌∷◌, ◌++◌, true, take, drop, take-append-drop, append_assoc,
  append-nil, arith,
}
use large_model_proxy.Pipe.{
  Pipe, Call, Trace, writes, reads, closes_write, closes_read, write, read, close_write, close_read,
  step, run, eof, new_buffered_pipe,
}

-- What is handed out and what is still held is what was taken in.
abbrev pub IsFifo : Trace → Type 0
IsFifo (b, ins, outs) = outs ++ b.buf ≡ ins

step-IsFifo : (t : Trace) (c : Call) → IsFifo t → IsFifo (step t c)
unfolding step write read close_write close_read
step-IsFifo (b, ins, outs) (writes p) h = ground (arith, append_assoc outs b.buf p, append-nil ins)
step-IsFifo (b, ins, outs) (reads n) h = ground (
  arith,
  append_assoc outs (take n b.buf) (drop n b.buf),
  take-append-drop n b.buf,
  append-nil outs,
)
step-IsFifo (b, ins, outs) closes_write h = h
step-IsFifo (b, ins, outs) closes_read h = h

run-IsFifo : (t : Trace) (cs : List Call) → IsFifo t → IsFifo (run t cs)
unfolding run
run-IsFifo t [] h = h
run-IsFifo t (c ∷ cs) h = run-IsFifo (step t c) cs (step-IsFifo t c h)

-- After any calls on a new pipe, the bytes that Read handed out and then the bytes in the buffer are
-- the bytes that Write took in.
pub run-new_buffered_pipe :
    (limit : ℕ) (cs : List Call)
    → let (b, ins, outs) = run (new_buffered_pipe limit, [], []) cs in outs ++ b.buf ≡ ins
run-new_buffered_pipe limit cs =
    run-IsFifo (new_buffered_pipe limit, [], []) cs (unfold new_buffered_pipe in refl)

read-eof_buf : (b : Pipe) (n : ℕ) → (read b n).1 ≡ eof → (b.writer_done ≡ true) × (b.buf ≡ [])
unfolding read
read-eof_buf b n h = ground arith

-- Read reports the end of the stream only when the writer is done and every byte that Write took in
-- has been handed out, whatever calls went before.
pub read-eof :
    (limit n : ℕ) (cs : List Call)
    → let (b, ins, outs) = run (new_buffered_pipe limit, [], []) cs in
      (read b n).1 ≡ eof → (b.writer_done ≡ true) × (outs ≡ ins)
read-eof limit n cs h =
    let (b, ins, outs) = run (new_buffered_pipe limit, [], []) cs in
    let (done, empty) = read-eof_buf b n h in
    (done, sym (append-nil outs) ∙ ap (λ r. outs ++ r) (sym empty) ∙ run-new_buffered_pipe limit cs)
