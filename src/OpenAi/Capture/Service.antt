-- ===== src/OpenAi/Capture/Service.antt =====
-- openai_api.go with connection.go, lines 209-229: all that the service of an OpenAI API connection is
-- sent, the replay first and then what is forwarded.
use large_model_proxy.Base.{
  ℕ, ◌≡◌, sym, ap, ◌∙◌, List, [], ◌++◌, append_assoc, take, drop, take-append-drop, Option, none,
  some,
}
use large_model_proxy.Config.{ServiceConfig}
use large_model_proxy.OpenAi.{catalogue}
use large_model_proxy.OpenAi.Capture.{Event, accept, run}
use large_model_proxy.OpenAi.Capture.Handover.{all_read, IsHandedOver, run-accept}
use large_model_proxy.Pipe.{Pipe}
use large_model_proxy.Forwarding.{Action, Forward, new_forward, run as forward}
use large_model_proxy.Forwarding.Delivery.{forwarded_in_order}

-- What handleConnection sends: the bytes read before, of which a write that fails sends the first ones
-- and ends the connection, and behind them what is forwarded.
unfoldable pub sent_to_service : List ℕ → Option ℕ → Forward → List ℕ
sent_to_service raw none f = raw ++ f.to_service
sent_to_service raw (some n) f = take n raw

module _ (raw : List ℕ) (f : Forward) (unsent unread later : List ℕ)
    (in_order : f.to_service ++ unsent ≡ f.received) (reads_on : f.received ++ unread ≡ later) where
  sent_to_service-first :
      (failure : Option ℕ)
      → (rest : List ℕ) × (raw ++ later ≡ sent_to_service raw failure f ++ rest)
  unfolding sent_to_service
  sent_to_service-first none = (unsent ++ unread, rw (← reads_on, ← in_order) (simp append_assoc))
  sent_to_service-first (some n) = (
    drop n raw ++ later,
    ap (λ b. b ++ later) (sym (take-append-drop n raw))
        ∙ append_assoc (take n raw) (drop n raw) later,
  )

-- A connection of the OpenAI API that was handed to a service was handed over by one request, a POST for a
-- model that the service offers, with the bytes read since the answer to the request before it, and
-- nothing is captured behind that. Whatever the forwarding's goroutines do with the bytes that are read
-- later, and whether or not the first write fails, the service is sent a part of the client's bytes in
-- order and without a gap, which begins where the answer before found the connection.
pub served_in_order :
    (now : ℕ) (services : List ServiceConfig) (events : List Event) (s : ServiceConfig)
    (sent : List ℕ) (pipe : Pipe) (schedule : List Action) (unread : List ℕ) (failure : Option ℕ)
    → (run (catalogue now services) accept events).handed ≡ some (s, sent)
    → (forward (new_forward pipe) schedule).received ++ unread
      ≡ (run (catalogue now services) accept events).later
    → let f = forward (new_forward pipe) schedule in
      IsHandedOver now services [] events s sent (run (catalogue now services) accept events)
      × ((front rest : List ℕ) × (all_read events
            ≡ front ++ (sent_to_service sent failure f ++ rest)))
served_in_order now services events s sent pipe schedule unread failure h k =
    let f = forward (new_forward pipe) schedule in
    let (over, (front, whole)) = run-accept now services events s sent h in
    let ((unsent, in_order), _, _, _) = forwarded_in_order pipe schedule in
    let (rest, e) = sent_to_service-first sent f unsent unread _ in_order k failure in
    (over, (front, rest, whole ∙ ap (λ b. front ++ b) e))
