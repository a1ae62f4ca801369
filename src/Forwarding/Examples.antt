-- ===== src/Forwarding/Examples.antt =====
-- A client sends five bytes and leaves, and the service answers and is closed behind it.
use large_model_proxy.Base.{ℕ, ◌≡◌, ◌≢◌, refl, Bool, true, false, List, [], ◌∷◌, ◌++◌}
use large_model_proxy.Pipe.{Pipe, write, read, close_write, is_full}
use large_model_proxy.Forwarding.{
  Action, monitor_reads, monitor_ends, up_copies, down_copies, down_ends, ups, downs, new_forward,
  step, run, panics, returns, forward_connection,
}
use large_model_proxy.Forwarding.Delivery.{forwarded_in_order}

abbrev pipe : Pipe
pipe = record { buf = 1 ∷ 2 ∷ []; limit = 8; writer_done = false; closed = false }

abbrev schedule : List Action
schedule =
    up_copies 4
    ∷ monitor_reads (3 ∷ 4 ∷ 5 ∷ [])
    ∷ monitor_ends
    ∷ up_copies 2
    ∷ down_copies (7 ∷ [])
    ∷ up_copies 9
    ∷ up_copies 9
    ∷ ups
    ∷ ups
    ∷ down_ends
    ∷ downs
    ∷ downs
    ∷ []

five_bytes : (run (new_forward pipe) schedule).to_service ≡ 1 ∷ 2 ∷ 3 ∷ 4 ∷ 5 ∷ []
unfolding run step new_forward write read close_write is_full
five_bytes = refl

client_first : forward_connection (run (new_forward pipe) schedule) ≡ returns true
unfolding forward_connection run step new_forward write read close_write is_full
client_first = refl

forwarded_in_order_example :
    let f = run (new_forward pipe) schedule in
    ((rest : List ℕ) × (f.to_service ++ rest ≡ f.received))
    × (f.ended_at_eof ≡ true → f.to_service ≡ f.received)
    × (forward_connection f ≢ panics)
    × ((reason : Bool)
        → forward_connection f ≡ returns reason
        → (f.service_is_open ≡ false) × (f.client_is_open ≡ false))
forwarded_in_order_example = forwarded_in_order pipe schedule
