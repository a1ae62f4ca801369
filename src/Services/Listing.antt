-- ===== src/Services/Listing.antt =====
-- service_process.go, lines 293-321: what a clean-up does to the list of running services.
use large_model_proxy.Base.{
  ℕ, ◌≡◌, refl, ◌∙◌, String, Bool, true, not, ◌||◌, ◌⊎◌, inl, inr, Dict, lookup, delete, arith,
  if◌then◌else◌, Bool-cases,
}
use large_model_proxy.Config.{ServiceConfig}
use large_model_proxy.Manager.{ResourceManager, RunningService, keys}
use large_model_proxy.Resources.{release_resources}
use large_model_proxy.Services.{Instance, clean_up, clean_up_manager, points_to}
use large_model_proxy.Services.Locks.{cleaned, broadcast-SameAmounts}

-- The list of running services without the instance `p`, if it stands there under the name.
abbrev pub without : String → ℕ → Dict ℕ → Dict ℕ
without name p listed = if points_to (lookup name listed) p then delete name listed else listed

-- The instance is taken off the list of running services when it is cleaned up, and stays otherwise.
abbrev pub Listing : ℕ → Instance → Instance → Dict ℕ → Dict ℕ → Type 0
Listing p i j listed listed' =
    ((j.running.resources_released ≡ i.running.resources_released) × (listed' ≡ listed))
    ⊎ ((j.running.resources_released ≡ true) × (listed' ≡ without i.service.name p listed))

clean_up_manager-running :
    (s : ServiceConfig) (p : ℕ) (rs : RunningService) (m : ResourceManager)
    → (clean_up_manager s p rs m).running_services ≡ without s.name p m.running_services
unfolding clean_up_manager release_resources
clean_up_manager-running s p rs m =
    (broadcast-SameAmounts _ (keys s.resource_requirements) true).running ∙ ground arith

pub clean_up-Listing :
    (i j : Instance) (p : ℕ) (b : Bool) (m : ResourceManager) (listed : Dict ℕ)
    → j.service ≡ i.service
    → j.running.resources_released ≡ i.running.resources_released
    → m.running_services ≡ listed
    → Listing p i
        (cleaned j (clean_up j.service p b j.running m).0)
        listed
        (clean_up j.service p b j.running m).1.running_services
unfolding clean_up
clean_up-Listing i j p b m listed s r l =
    elim (Bool-cases (not b || j.running.resources_released)) [
      | inl e ↦ rw (e, clean_up) (inl (r, l))
      | inr e ↦
          rw (e, clean_up)
            (inr (refl, rw (clean_up_manager-running j.service p j.running m, s, l) refl))
    ]
