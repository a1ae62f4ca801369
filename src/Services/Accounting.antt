-- ===== src/Services/Accounting.antt =====
-- service.go, lines 72-213, with resources.go and service_process.go: the books of the resources agree
-- with the instances after any schedule of steps.
use large_model_proxy.Base.{
  ℕ, ◌≡◌, refl, String, inl, inr, List, [], ◌∷◌, some, get_elem?, All, All-append, Option-cases,
  pos, wrap,
}
use large_model_proxy.Config.{Config}
use large_model_proxy.Services.{Instance, System, Action, move, step, run}
use large_model_proxy.Resources.Amounts.{held}
use large_model_proxy.Services.Sums.{total, Accounts, Accounts-Change, Accounts-append}
use large_model_proxy.Services.Locks.{holds_in_use, holds_reserved, IsSound}
use large_model_proxy.Services.Moves.{Moved}
use large_model_proxy.Services.Steps.{moved, begun, All-set, step-Stepped}

pub record Inv (y : System) : Type 0 where
  pub sound : All IsSound y.instances
  pub in_use : Accounts holds_in_use y.manager.resources_in_use y.instances
  pub reserved : Accounts holds_reserved y.manager.resources_reserved y.instances

Moved-Inv :
    (c : Config) (y z : System) (p : ℕ) (i : Instance)
    → Inv y
    → get_elem? y.instances p ≡ some i
    → Moved c y z p i
    → Inv z
Moved-Inv c y z p i v e move = rw move.result (record {
  sound = All-set y.instances p move.to v.sound move.sound;
  in_use =
      Accounts-Change holds_in_use y.manager.resources_in_use move.manager.resources_in_use
        y.instances p i move.to v.in_use e move.same move.in_use;
  reserved =
      Accounts-Change holds_reserved y.manager.resources_reserved move.manager.resources_reserved
        y.instances p i move.to v.reserved e move.same move.reserved;
})

-- Every step keeps the books in agreement with the instances.
pub step-Inv : (c : Config) (y z : System) (a : Action) → Inv y → step c y a ≡ some z → Inv z
step-Inv c y z a v h = elim (step-Stepped c y z a v.sound h) [
  | moved p i e move ↦ Moved-Inv c y z p i v e move
  | begun s now i _ _ sound out free e u r _ _ _ ↦ record {
    sound = rw e (All-append IsSound y.instances (i ∷ []) v.sound (sound, tt));
    in_use =
        rw (e, u)
          (Accounts-append holds_in_use y.manager.resources_in_use y.instances i v.in_use out);
    reserved =
        rw (e, r)
          (Accounts-append holds_reserved y.manager.resources_reserved y.instances i v.reserved
            free);
  }
]

-- The proxy as main starts it: no instance, and nothing on the books of any resource.
abbrev pub IsInitial : System → Type 0
IsInitial y =
    (y.instances ≡ [])
    × ((r : String) → held r y.manager.resources_in_use ≡ pos 0)
    × ((r : String) → held r y.manager.resources_reserved ≡ pos 0)

pub IsInitial-Inv : (y : System) → IsInitial y → Inv y
IsInitial-Inv y (e, u, k) = record {
  sound = rw e tt;
  in_use = λ r. rw (e, u r) (unfold total wrap in refl);
  reserved = λ r. rw (e, k r) (unfold total wrap in refl);
}

pub run-Inv : (c : Config) (y : System) (rest : List Action) → Inv y → Inv (run c y rest)
unfolding run
run-Inv c y [] v = v
run-Inv c y (a ∷ rest) v = elim (Option-cases (step c y a)) [
  | inl e ↦ rw (e, run) (run-Inv c y rest v)
  | inr (z, e) ↦ rw (e, run) (run-Inv c z rest (step-Inv c y z a v e))
]

-- After any schedule of steps from the start, whatever instances start, fail, exit, or are stopped in
-- whatever order, the amounts in resourcesInUse are those that the instances with taken and not yet
-- released resources require, and the amounts in resourcesReserved are those that the instances
-- between the reservation and its return require: each amount is given back exactly once. The sums
-- are 64-bit sums.
pub run-Accounts :
    (c : Config) (y : System) (schedule : List Action)
    → IsInitial y
    → let z = run c y schedule in
      Accounts holds_in_use z.manager.resources_in_use z.instances
      × Accounts holds_reserved z.manager.resources_reserved z.instances
run-Accounts c y schedule h =
    let v = run-Inv c y schedule (IsInitial-Inv y h) in (v.in_use, v.reserved)
