-- ===== src/Waiting/Examples.antt =====
-- The text model takes the card, and the image model waits for it.
use large_model_proxy.Base.{
  zero, suc, ◌≡◌, refl, String, true, false, [], ◌∷◌, List, Dict, some, arith, lookup, lookup_or,
  insert, delete, get_elem?, ◌++◌, sym, ap, value_or, add, sub, wrap, ◌+ℤ◌, ◌-ℤ◌,
}
use large_model_proxy.Config.{ServiceConfig}
use large_model_proxy.Manager.{adjust, broadcast_resource_change, send_signal_to_channels, try_send}
use large_model_proxy.Resources.{
  reserve_pass, find_first_missing_resource, first_missing_static, check_measured, take_resources,
  take_amounts, deregister_change, handle_not_enough_resource,
}
use large_model_proxy.Eviction.{find_earliest_last_used_service, earliest_of}
use large_model_proxy.Samples.{gpu, idle, text_model, image_model}
use large_model_proxy.Waiting.{
  Phase, deciding, selecting, Waiter, Hall, Action, moves, announces, Move, run, step, move,
  register_change, receive_change, remove_change, channel_of,
}
use large_model_proxy.Waiting.Registered.{registered}
use large_model_proxy.Waiting.Passes.{waits_for, checks_for}
use large_model_proxy.Waiting.Listeners.{AreDistinct, IsQuiet, IsListening, listeners_follow_phases}
use large_model_proxy.Waiting.Wakes.{received, announced_is_received}

abbrev two_waiters : Hall
two_waiters = record {
  manager = idle;
  waiters =
      record { service = text_model; phase = Phase.idle }
      ∷ record { service = image_model; phase = Phase.idle }
      ∷ [];
}

abbrev configs : Dict ServiceConfig
configs = ("text", text_model) ∷ ("image", image_model) ∷ []

abbrev card_is_taken : List Action
card_is_taken =
    moves 0 Move.begins
    ∷ moves 0 Move.passes
    ∷ moves 1 Move.begins
    ∷ moves 1 Move.passes
    ∷ moves 1 (Move.finds [] 5)
    ∷ moves 1 Move.listens
    ∷ []

abbrev image_waits : Waiter
image_waits = record { service = image_model; phase = selecting "VRAM" }

image_selects : get_elem? (run gpu configs two_waiters card_is_taken).waiters 1 ≡ some image_waits
unfolding run step move reserve_pass find_first_missing_resource first_missing_static check_measured
    take_resources take_amounts deregister_change handle_not_enough_resource
    find_earliest_last_used_service earliest_of register_change adjust add sub wrap ◌+ℤ◌ ◌-ℤ◌
    lookup_or lookup insert delete
image_selects = refl

-- A change that wants a new measurement, announced while one that does not is unread, is dropped.
abbrev two_changes : List Action
two_changes = announces "VRAM" false ∷ announces "VRAM" true ∷ moves 1 Move.receives ∷ []

second_change_is_dropped :
    get_elem? (run gpu configs two_waiters (card_is_taken ++ two_changes)).waiters 1
    ≡ some (record { service = image_model; phase = deciding false })
unfolding run step move reserve_pass find_first_missing_resource first_missing_static check_measured
    take_resources take_amounts deregister_change handle_not_enough_resource
    find_earliest_last_used_service earliest_of register_change receive_change remove_change
    broadcast_resource_change send_signal_to_channels try_send adjust add sub wrap ◌+ℤ◌ ◌-ℤ◌
    lookup_or lookup insert delete
second_change_is_dropped = refl

result : {v : Waiter} (w : Waiter) → some v ≡ some w → w ≡ v
result w h = sym (ap (value_or w) h)

two_waiters-AreDistinct : AreDistinct two_waiters.waiters
two_waiters-AreDistinct zero zero w v p q r = absurd (r refl)
two_waiters-AreDistinct zero (suc zero) w v p q r = rw (result w p, result v q) refl
two_waiters-AreDistinct (suc zero) zero w v p q r = rw (result w p, result v q) refl
two_waiters-AreDistinct (suc zero) (suc zero) w v p q r = absurd (r refl)
two_waiters-AreDistinct zero (suc (suc j)) w v p q r = ground (arith, q)
two_waiters-AreDistinct (suc zero) (suc (suc j)) w v p q r = ground (arith, q)
two_waiters-AreDistinct (suc (suc i)) j w v p q r = ground (arith, p)

nobody_listens : (q k : String) → (waits_for q k idle ≡ false) × (checks_for q k idle ≡ false)
unfolding registered lookup
nobody_listens q k = ground arith

two_waiters-IsQuiet : IsQuiet two_waiters
two_waiters-IsQuiet zero w e = rw (result w e) (refl, λ q. nobody_listens q "text")
two_waiters-IsQuiet (suc zero) w e = rw (result w e) (refl, λ q. nobody_listens q "image")
two_waiters-IsQuiet (suc (suc i)) w e = ground (arith, e)

listeners_follow_phases_example :
    IsListening (run gpu configs two_waiters card_is_taken).manager image_waits
listeners_follow_phases_example =
    listeners_follow_phases gpu configs two_waiters card_is_taken two_waiters-AreDistinct
      two_waiters-IsQuiet 1 image_waits image_selects

announced_is_received_example :
    get_elem?
      (step gpu configs
        (step gpu configs (run gpu configs two_waiters card_is_taken) (announces "VRAM" true))
        (moves 1 Move.receives)).waiters
      1
    ≡ some (record image_waits {
      phase = deciding (
          received
            (channel_of "VRAM" image_waits.service.name
              (run gpu configs two_waiters card_is_taken).manager.resource_change_by_resource_chans)
            true);
    })
announced_is_received_example =
    announced_is_received gpu configs two_waiters card_is_taken 1 image_waits "VRAM" true
      two_waiters-AreDistinct two_waiters-IsQuiet image_selects refl
