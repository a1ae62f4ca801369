-- ===== src/Forwarding/Delivery.antt =====
-- connection.go, forwardConnection: what the service has been sent, and that both connections are closed.
use large_model_proxy.Base.{
  ℕ, ◌≡◌, ◌≢◌, refl, sym, ap, ◌∙◌, Bool, true, false, not, ◌&&◌, List, [], ◌∷◌, ◌++◌, take, drop,
  take-append-drop, append_assoc, append-nil, arith,
}
use large_model_proxy.Pipe.{
  Pipe, Delivered, got, eof, read_closed, read_waits, read, write, close_write, taken, handed,
}
use large_model_proxy.Forwarding.{
  Stage, copying, copied, flagged, done, Forward, new_forward, Action, monitor_reads, monitor_ends,
  up_copies, up_fails, down_copies, down_ends, ups, downs, copy_slice, fail_slice, step_up,
  step_down, is_copying, step, run, panics, returns, forward_connection,
}
use large_model_proxy.Forwarding.Endings.{
  IsOrderly, if_kept, step-IsOrderly, forward_connection-closed,
}

-- The service has been sent the first of the bytes received, and all of them but those in the pipe
-- while the copy runs or when it has ended at the end of the bytes.
abbrev IsFaithful : Forward → Type 0
IsFaithful f =
    ((rest : List ℕ) × (f.to_service ++ rest ≡ f.received))
    × (is_copying f.up ≡ true → f.to_service ++ f.pipe.buf ≡ f.received)
    × (f.ended_at_eof ≡ true
        → (f.to_service ≡ f.received) × (f.pipe.writer_done ≡ true) × (is_copying f.up ≡ false))

read-handed : (b : Pipe) (n : ℕ) → handed (read b n).1 ++ (read b n).0.buf ≡ b.buf
unfolding read
read-handed b n = ground (arith, take-append-drop n b.buf)

read-writer_done : (b : Pipe) (n : ℕ) → (read b n).0.writer_done ≡ b.writer_done
unfolding read
read-writer_done b n = ground arith

read-at_eof : (b : Pipe) (n : ℕ) → (read b n).1 ≡ eof → (b.writer_done ≡ true) × (b.buf ≡ [])
unfolding read
read-at_eof b n h = ground (arith, h)

write-taken :
    (b : Pipe) (bytes : List ℕ) → (write b bytes).0.buf ≡ b.buf ++ taken bytes (write b bytes).1
unfolding write
write-taken b bytes = ground (arith, append-nil b.buf)

write-writer_done : (b : Pipe) (bytes : List ℕ) → (write b bytes).0.writer_done ≡ b.writer_done
unfolding write
write-writer_done b bytes = ground arith

-- The books on the bytes do not depend on the flag and the connections.
step_up-IsFaithful : (f : Forward) (s : Stage) → f.up ≡ s → IsFaithful f → IsFaithful (step_up f s)
step_up-IsFaithful f copying e h = h
step_up-IsFaithful f copied e h =
    (h.0, (λ i. ground (arith, i)), (λ i. ((h.2 i).0, (h.2 i).1, refl)))
step_up-IsFaithful f flagged e h =
    (h.0, (λ i. ground (arith, i)), (λ i. ((h.2 i).0, (h.2 i).1, refl)))
step_up-IsFaithful f done e h = h

step_down-IsFaithful : (f : Forward) (s : Stage) → IsFaithful f → IsFaithful (step_down f s)
step_down-IsFaithful f copying h = h
step_down-IsFaithful f copied h = h
step_down-IsFaithful f flagged h = h
step_down-IsFaithful f done h = h

monitor_reads-IsFaithful :
    (f : Forward) (bytes : List ℕ)
    → not f.pipe.writer_done ≡ true
    → IsFaithful f
    → let (pipe, written) = write f.pipe bytes in
      IsFaithful (record f { pipe = pipe; received = f.received ++ taken bytes written })
monitor_reads-IsFaithful f bytes o ((rest, p), running, ended) =
    let new = taken bytes (write f.pipe bytes).1 in
    (
      (rest ++ new, sym (append_assoc f.to_service rest new) ∙ ap (λ x. x ++ new) p),
      (λ i.
          ap (λ x. f.to_service ++ x) (write-taken f.pipe bytes)
          ∙ sym (append_assoc f.to_service f.pipe.buf new)
          ∙ ap (λ x. x ++ new) (running i)),
      (λ i. ground (arith, o, (ended i).1)),
    )

-- What a read of the pipe gives, whatever it is.
abbrev IsReadOf : Pipe → Pipe × Delivered → Type 0
IsReadOf b (pipe, slice) =
    (handed slice ++ pipe.buf ≡ b.buf)
    × (pipe.writer_done ≡ b.writer_done)
    × (slice ≡ eof → (b.writer_done ≡ true) × (b.buf ≡ []))

read-IsReadOf : (b : Pipe) (n : ℕ) → IsReadOf b (read b n)
read-IsReadOf b n = (read-handed b n, read-writer_done b n, read-at_eof b n)

copy_slice-IsFaithful :
    (f : Forward) (r : Pipe × Delivered)
    → IsReadOf f.pipe r
    → is_copying f.up ≡ true
    → IsFaithful f
    → IsFaithful (copy_slice f r)
copy_slice-IsFaithful f (pipe, got bytes) (q, w, _) c h =
    let p : (f.to_service ++ bytes) ++ pipe.buf ≡ f.received =
      append_assoc f.to_service bytes pipe.buf ∙ ap (λ x. f.to_service ++ x) q ∙ h.1 c in
    ((pipe.buf, p), (λ _. p), (λ i. ground (arith, c, (h.2 i).2)))
copy_slice-IsFaithful f (pipe, eof) (q, w, e) c h =
    let (closed, empty) = e refl in
    let p = sym (append-nil f.to_service) ∙ ap (λ x. f.to_service ++ x) (sym empty) ∙ h.1 c in
    (h.0, (λ i. ground (arith, i)), (λ _. (p, w ∙ closed, refl)))
copy_slice-IsFaithful f (pipe, read_closed) (q, w, _) c h =
    (h.0, (λ i. ground (arith, i)), (λ i. ground (arith, c, (h.2 i).2)))
copy_slice-IsFaithful f (pipe, read_waits) e c h = h

fail_slice-IsFaithful :
    (f : Forward) (sent : ℕ) (r : Pipe × Delivered)
    → IsReadOf f.pipe r
    → is_copying f.up ≡ true
    → IsFaithful f
    → IsFaithful (fail_slice f sent r)
fail_slice-IsFaithful f sent (pipe, slice) (q, w, _) c h =
    let x = handed slice in
    let split : take sent x ++ (drop sent x ++ pipe.buf) ≡ f.pipe.buf =
      sym (append_assoc (take sent x) (drop sent x) pipe.buf)
      ∙ ap (λ y. y ++ pipe.buf) (take-append-drop sent x)
      ∙ q in
    (
      (
        drop sent x ++ pipe.buf,
        append_assoc f.to_service (take sent x) (drop sent x ++ pipe.buf)
            ∙ ap (λ y. f.to_service ++ y) split
            ∙ h.1 c,
      ),
      (λ i. ground (arith, i)),
      (λ i. ground (arith, c, (h.2 i).2)),
    )

and_left : (a b : Bool) → a && b ≡ true → a ≡ true
and_left a b h = ground (arith, h)

and_right : (a b : Bool) → a && b ≡ true → b ≡ true
and_right a b h = ground (arith, h)

step-IsFaithful : (f : Forward) (a : Action) → IsFaithful f → IsFaithful (step f a)
unfolding step close_write
step-IsFaithful f (monitor_reads bytes) h =
    if_kept IsFaithful _ f _
      (λ o. monitor_reads-IsFaithful f bytes (and_right f.client_is_open _ o) h) h
step-IsFaithful f monitor_ends h = (h.0, h.1, (λ i. ((h.2 i).0, refl, (h.2 i).2)))
step-IsFaithful f (up_copies n) h =
    if_kept IsFaithful _ f _
      (λ o.
        copy_slice-IsFaithful f (read f.pipe n) (read-IsReadOf f.pipe n)
          (and_left _ f.service_is_open o) h)
      h
step-IsFaithful f (up_fails n sent) h =
    if_kept IsFaithful _ f _
      (λ o. fail_slice-IsFaithful f sent (read f.pipe n) (read-IsReadOf f.pipe n) o h) h
step-IsFaithful f (down_copies bytes) h = if_kept IsFaithful _ f _ (λ _. h) h
step-IsFaithful f down_ends h = if_kept IsFaithful _ f _ (λ _. h) h
step-IsFaithful f ups h = step_up-IsFaithful f f.up refl h
step-IsFaithful f downs h = step_down-IsFaithful f f.down h

run-kept :
    (f : Forward) (schedule : List Action)
    → IsFaithful f
    → IsOrderly f
    → IsFaithful (run f schedule) × IsOrderly (run f schedule)
unfolding run
run-kept f [] a b = (a, b)
run-kept f (x ∷ rest) a b = run-kept (step f x) rest (step-IsFaithful f x a) (step-IsOrderly f x b)

-- Whatever the order of the goroutines' steps and whatever the sockets do, the service has been sent the
-- first of the client's bytes, in order and none twice, and all of them when its copy ended at the
-- end of the bytes; and forwardConnection never reads a flag that is not set, and has closed both
-- connections when it returns.
pub forwarded_in_order :
    (pipe : Pipe) (schedule : List Action)
    → let f = run (new_forward pipe) schedule in
      ((rest : List ℕ) × (f.to_service ++ rest ≡ f.received))
      × (f.ended_at_eof ≡ true → f.to_service ≡ f.received)
      × (forward_connection f ≢ panics)
      × ((reason : Bool)
          → forward_connection f ≡ returns reason
          → (f.service_is_open ≡ false) × (f.client_is_open ≡ false))
unfolding new_forward
forwarded_in_order pipe schedule =
    let (faithful, orderly) =
      run-kept (new_forward pipe) schedule ((pipe.buf, refl), (λ _. refl), (λ i. ground (arith, i)))
        (
          (λ i. ground (arith, i)),
          (λ i. ground (arith, i)),
          (λ i. ground (arith, i)),
          (λ i. ground (arith, i)),
        ) in
    let (sound, closed) = forward_connection-closed (run (new_forward pipe) schedule) orderly in
    (faithful.0, (λ i. (faithful.2 i).0), sound, closed)
