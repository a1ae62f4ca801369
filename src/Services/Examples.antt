-- ===== src/Services/Examples.antt =====
-- Schedules of two services that cannot run at once.
use large_model_proxy.Base.{
  ◌≡◌, refl, String, true, List, [], ◌∷◌, none, pos, arith, lookup_or, lookup, insert, delete, sub,
  add, wrap, ◌-ℤ◌, ◌+ℤ◌,
}
use large_model_proxy.Config.{get_idle_timeout}
use large_model_proxy.Manager.{
  adjust, send_signal_to_channels, broadcast_resource_changes, broadcast_resource_change,
}
use large_model_proxy.Resources.{
  reserve_pass, find_first_missing_resource, first_missing_static, check_measured,
  release_reserved_resources, take_resources, deregister_change, take_amounts, release_amounts,
  release_resources, handle_not_enough_resource,
}
use large_model_proxy.Resources.Amounts.{held}
use large_model_proxy.Samples.{text_model, image_model, gpu, idle}
use large_model_proxy.Services.{
  System, Action, begin, reserve, confirm, launches, becomes_ready, stop_begins, stop_ends,
  process_exits, step, run, clean_up, clean_up_manager, new_running_service,
}
use large_model_proxy.Services.Sums.{Accounts}
use large_model_proxy.Services.Locks.{holds_in_use, holds_reserved}
use large_model_proxy.Services.Live.{IsRegistry}
use large_model_proxy.Services.Registry.{run-IsRegistry}
use large_model_proxy.Services.Accounting.{run-Accounts, IsInitial}

abbrev started : System
started = record { manager = idle; instances = [] }

-- The text model starts; the image model has to wait until the text model is stopped.
abbrev hand_over : List Action
hand_over =
    begin text_model 0
    ∷ reserve 0 true
    ∷ confirm 0
    ∷ launches 0 4711 none none
    ∷ becomes_ready 0 5
    ∷ begin image_model 6
    ∷ reserve 1 true
    ∷ stop_begins "text"
    ∷ process_exits 0
    ∷ stop_ends 0 true
    ∷ reserve 1 true
    ∷ []

started-IsInitial : IsInitial started
unfolding lookup_or
started-IsInitial = (refl, nothing, nothing)
  where
    nothing : (r : String) → held r (("VRAM", pos 0) ∷ []) ≡ pos 0
    nothing r = ground arith

hand_over_ends : held "VRAM" (run gpu started hand_over).manager.resources_in_use ≡ pos 5
unfolding run step lookup_or lookup insert delete sub add wrap ◌-ℤ◌ ◌+ℤ◌ reserve_pass
    find_first_missing_resource first_missing_static check_measured release_reserved_resources
    take_resources deregister_change take_amounts release_amounts release_resources
    handle_not_enough_resource clean_up clean_up_manager get_idle_timeout adjust
    send_signal_to_channels broadcast_resource_changes broadcast_resource_change new_running_service
hand_over_ends = refl

run-Accounts_example :
    let z = run gpu started hand_over in
    Accounts holds_in_use z.manager.resources_in_use z.instances
    × Accounts holds_reserved z.manager.resources_reserved z.instances
run-Accounts_example = run-Accounts gpu started hand_over started-IsInitial

run-IsRegistry_example :
    IsRegistry
      (run gpu started hand_over).manager.running_services
      (run gpu started hand_over).instances
run-IsRegistry_example = run-IsRegistry gpu started hand_over started-IsInitial refl

-- The text model is off the list behind its stop.
listed_after : (run gpu started hand_over).manager.running_services ≡ ("image", 1) ∷ []
unfolding run step lookup_or lookup insert delete sub add wrap ◌-ℤ◌ ◌+ℤ◌ reserve_pass
    find_first_missing_resource first_missing_static check_measured release_reserved_resources
    take_resources deregister_change take_amounts release_amounts release_resources
    handle_not_enough_resource clean_up clean_up_manager get_idle_timeout adjust
    send_signal_to_channels broadcast_resource_changes broadcast_resource_change new_running_service
listed_after = refl
