-- ===== src/Forwarding/Endings.antt =====
-- connection.go, forwardConnection: the flag and the closing of the connections, step by step.
use large_model_proxy.Base.{
  ℕ, ◌≡◌, ◌≢◌, refl, Bool, true, false, List, ◌++◌, take, Option, none, some, arith, if◌then◌else◌,
}
use large_model_proxy.Pipe.{Pipe, Delivered, got, eof, read_closed, read_waits, read, handed}
use large_model_proxy.Forwarding.{
  Stage, copying, copied, flagged, done, Forward, Action, monitor_reads, monitor_ends, up_copies,
  up_fails, down_copies, down_ends, ups, downs, mark, copy_slice, step_up, step_down, step, panics,
  returns, forward_connection, when_done, with_reason,
}

abbrev pub is_late : Stage → Bool
is_late copying = false
is_late copied = false
is_late flagged = true
is_late done = true

abbrev pub is_done : Stage → Bool
is_done done = true
is_done _ = false

-- A goroutine that is behind the flag has set it, and one that is done has closed its connection.
abbrev pub IsOrderly : Forward → Type 0
IsOrderly f =
    (is_late f.up ≡ true → f.eof_on_write_from_server_to_client ≢ none)
    × (is_late f.down ≡ true → f.eof_on_write_from_server_to_client ≢ none)
    × (is_done f.up ≡ true → f.service_is_open ≡ false)
    × (is_done f.down ≡ true → f.client_is_open ≡ false)

mark-some : (b : Bool) (o : Option Bool) → mark b o ≢ none
mark-some b none h = ground (arith, h)
mark-some b (some old) h = ground (arith, h)

step_up-IsOrderly : (f : Forward) (s : Stage) → f.up ≡ s → IsOrderly f → IsOrderly (step_up f s)
step_up-IsOrderly f copying e h = h
step_up-IsOrderly f copied e h =
    ((λ _. mark-some true _), (λ _. mark-some true _), (λ i. ground (arith, i)), h.3)
step_up-IsOrderly f flagged e h = ((λ _. h.0 (rw e refl)), h.1, (λ _. refl), h.3)
step_up-IsOrderly f done e h = h

step_down-IsOrderly :
    (f : Forward) (s : Stage) → f.down ≡ s → IsOrderly f → IsOrderly (step_down f s)
step_down-IsOrderly f copying e h = h
step_down-IsOrderly f copied e h =
    ((λ _. mark-some false _), (λ _. mark-some false _), h.2, (λ i. ground (arith, i)))
step_down-IsOrderly f flagged e h = (h.0, (λ _. h.1 (rw e refl)), h.2, (λ _. refl))
step_down-IsOrderly f done e h = h

copied_up-IsOrderly :
    (f : Forward) (pipe : Pipe) (sent : List ℕ) (b : Bool)
    → IsOrderly f
    → IsOrderly (record f { pipe = pipe; to_service = sent; up = copied; ended_at_eof = b })
copied_up-IsOrderly f pipe sent b h = ((λ i. ground (arith, i)), h.1, (λ i. ground (arith, i)), h.3)

copy_slice-IsOrderly :
    (f : Forward) (r : Pipe × Delivered) → IsOrderly f → IsOrderly (copy_slice f r)
copy_slice-IsOrderly f (pipe, got bytes) h = h
copy_slice-IsOrderly f (pipe, eof) h = copied_up-IsOrderly f pipe f.to_service true h
copy_slice-IsOrderly f (pipe, read_closed) h =
    copied_up-IsOrderly f pipe f.to_service f.ended_at_eof h
copy_slice-IsOrderly f (pipe, read_waits) h = h

-- A step under a test keeps what the step keeps.
pub if_kept :
    (P : Forward → Type 0) (b : Bool) (f g : Forward)
    → (b ≡ true → P g)
    → P f
    → P (if b then g else f)
if_kept P true f g h k = h refl
if_kept P false f g h k = k

pub step-IsOrderly : (f : Forward) (a : Action) → IsOrderly f → IsOrderly (step f a)
unfolding step
step-IsOrderly f (monitor_reads bytes) h = if_kept IsOrderly _ f _ (λ _. h) h
step-IsOrderly f monitor_ends h = h
step-IsOrderly f (up_copies n) h =
    if_kept IsOrderly _ f _ (λ _. copy_slice-IsOrderly f (read f.pipe n) h) h
step-IsOrderly f (up_fails n sent) h =
    if_kept IsOrderly _ f _
      (λ _.
        copied_up-IsOrderly f (read f.pipe n).0
          (f.to_service ++ take sent (handed (read f.pipe n).1)) f.ended_at_eof h)
      h
step-IsOrderly f (down_copies bytes) h = if_kept IsOrderly _ f _ (λ _. h) h
step-IsOrderly f down_ends h =
    if_kept IsOrderly _ f _ (λ _. (h.0, (λ i. ground (arith, i)), h.2, (λ i. ground (arith, i)))) h
step-IsOrderly f ups h = step_up-IsOrderly f f.up refl h
step-IsOrderly f downs h = step_down-IsOrderly f f.down refl h

when_done-returns :
    (up down : Stage) (o : Option Bool)
    → (is_late up ≡ true → o ≢ none)
    → (when_done up down (with_reason o) ≢ panics)
      × ((reason : Bool)
          → when_done up down (with_reason o) ≡ returns reason
          → (is_done up ≡ true) × (is_done down ≡ true))
when_done-returns done done none h = absurd (h refl refl)
when_done-returns done done (some b) h = ((λ e. ground (arith, e)), (λ r e. (refl, refl)))
when_done-returns up down o h = ((λ e. ground (arith, e)), (λ r e. ground (arith, e)))

pub forward_connection-closed :
    (f : Forward)
    → IsOrderly f
    → (forward_connection f ≢ panics)
      × ((reason : Bool)
          → forward_connection f ≡ returns reason
          → (f.service_is_open ≡ false) × (f.client_is_open ≡ false))
unfolding forward_connection
forward_connection-closed f h =
    let (sound, ended) = when_done-returns f.up f.down f.eof_on_write_from_server_to_client h.0 in
    (sound, (λ r e. (h.2 (ended r e).0, h.3 (ended r e).1)))
