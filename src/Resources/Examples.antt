-- ===== src/Resources/Examples.antt =====
-- One round of a reservation on a card with room for ten.
use large_model_proxy.Base.{
  ◌≡◌, ◌≢◌, refl, [], ◌∷◌, none, some, true, pos, lookup_or, insert, delete, sub, add, wrap, ◌-ℤ◌,
  ◌+ℤ◌,
}
use large_model_proxy.Manager.{ResourceManager, adjust}
use large_model_proxy.Samples.{gpu, idle}
use large_model_proxy.Resources.{
  Requirements, reserve_pass, reserved, find_first_missing_resource, first_missing_static,
  check_measured, take_resources, deregister_change, take_amounts,
}
use large_model_proxy.Resources.Reserve.{Outcome, reserve_pass-Outcome, reserve_pass-total}

abbrev wanted : Requirements
wanted = ("VRAM", pos 6) ∷ []

abbrev busy : ResourceManager
busy = record idle {
  resources_in_use = ("VRAM", pos 6) ∷ [];
  resources_reserved = ("VRAM", pos 6) ∷ [];
}

reserve_pass_takes : reserve_pass gpu wanted "text" true idle ≡ some (busy, reserved)
unfolding reserve_pass find_first_missing_resource first_missing_static check_measured
    take_resources deregister_change take_amounts lookup_or insert delete sub add wrap ◌-ℤ◌ ◌+ℤ◌
    adjust
reserve_pass_takes = refl

reserve_pass-Outcome_example : Outcome gpu wanted idle busy reserved
reserve_pass-Outcome_example =
    reserve_pass-Outcome gpu wanted "text" true idle busy reserved reserve_pass_takes

reserve_pass-total_example : reserve_pass gpu wanted "text" true idle ≢ none
unfolding lookup_or
reserve_pass-total_example = reserve_pass-total gpu wanted "text" true idle ((λ e. cc), tt)
