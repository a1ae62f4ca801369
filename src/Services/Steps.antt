-- ===== src/Services/Steps.antt =====
-- service.go and service_process.go: every step changes one instance, or adds one.
use large_model_proxy.Base.{
  ℕ, zero, suc, ◌≡◌, refl, ap, false, inl, inr, List, [], ◌∷◌, ◌++◌, Option, none, some, get_elem?,
  All, insert, length, arith, Option-cases, lookup,
}
use large_model_proxy.Config.{Config, ServiceConfig}
use large_model_proxy.Services.{
  waiting, Instance, System, Action, begin, reserve, give_up, confirm, launch_fails, launches,
  start_fails, returns_reserved, becomes_ready, stop_begins, stop_ends, process_exits, idle_fires,
  at, new_running_service, begin_service, stop_begin, stop_end, process_exit, step,
}
use large_model_proxy.Services.Heap.{set}
use large_model_proxy.Services.Locks.{holds_in_use, holds_reserved, IsSound}
use large_model_proxy.Services.Moves.{Moved, move-Moved}
use large_model_proxy.Services.Stops.{stop_begin-Moved, stop_end-Moved, process_exit-Moved}

-- What a step does: it moves the instance `p`, or it registers a new instance that holds nothing.
pub data Stepped (c : Config) (y z : System) (a : Action) : Type 0 where
  moved :
      (p : ℕ) (i : Instance) → get_elem? y.instances p ≡ some i → Moved c y z p i → Stepped c y z a
  begun :
      (s : ServiceConfig) (now : ℕ) (i : Instance)
      → a ≡ begin s now
      → i.service ≡ s
      → IsSound i
      → holds_in_use i ≡ false
      → holds_reserved i ≡ false
      → z.instances ≡ y.instances ++ i ∷ []
      → z.manager.resources_in_use ≡ y.manager.resources_in_use
      → z.manager.resources_reserved ≡ y.manager.resources_reserved
      → i.running.resources_released ≡ false
      → lookup s.name y.manager.running_services ≡ none
      → z.manager.running_services ≡ insert s.name (length y.instances) y.manager.running_services
      → Stepped c y z a

pub All-get :
    (is : List Instance) (p : ℕ) (i : Instance)
    → All IsSound is
    → get_elem? is p ≡ some i
    → IsSound i
All-get [] p i h e = cc
All-get (x ∷ is) zero i h e = let k : x ≡ i = cc in rw (← k) h.0
All-get (x ∷ is) (suc p) i h e = All-get is p i h.1 e

pub All-set :
    (is : List Instance) (p : ℕ) (j : Instance)
    → All IsSound is
    → IsSound j
    → All IsSound (set is p j)
All-set [] p j h k = tt
All-set (x ∷ is) zero j h k = (k, h.1)
All-set (x ∷ is) (suc p) j h k = (h.0, All-set is p j h.1 k)

at-Stepped :
    (c : Config) (y z : System) (p : ℕ) (f : Instance → Option System) (a : Action)
    → All IsSound y.instances
    → ((i : Instance) → IsSound i → f i ≡ some z → Moved c y z p i)
    → at y p f ≡ some z
    → Stepped c y z a
unfolding at
at-Stepped c y z p f a v step_of h = elim (Option-cases (get_elem? y.instances p)) [
  | inl e ↦ ground (arith, e)
  | inr (i, e) ↦ moved p i e (step_of i (All-get y.instances p i v e) (ground (arith, e)))
]

begin_service-Stepped :
    (c : Config) (s : ServiceConfig) (now : ℕ) (y z : System)
    → begin_service s now y ≡ some z
    → Stepped c y z (begin s now)
unfolding begin_service new_running_service
begin_service-Stepped c s now y z h =
    elim (Option-cases (lookup s.name y.manager.running_services)) [
      | inr (p, e) ↦ ground (arith, e)
      | inl e ↦
          let i : Instance = record {
            service = s;
            phase = waiting;
            stopping = false;
            running = new_running_service now;
          } in
          let k : z ≡ record {
            manager = record y.manager {
              running_services = insert s.name (length y.instances) y.manager.running_services;
            };
            instances = y.instances ++ i ∷ [];
          } =
            ground (arith, e) in
          begun s now i refl refl (ground arith) refl refl (ap (λ w. w.instances) k)
            (ap (λ w. w.manager.resources_in_use) k) (ap (λ w. w.manager.resources_reserved) k) refl
            e (ap (λ w. w.manager.running_services) k)
    ]

pub step-Stepped :
    (c : Config) (y z : System) (a : Action)
    → All IsSound y.instances
    → step c y a ≡ some z
    → Stepped c y z a
unfolding step
step-Stepped c y z (begin s now) v h = begin_service-Stepped c s now y z h
step-Stepped c y z (stop_begins name) v h =
    elim (Option-cases (lookup name y.manager.running_services)) [
      | inl e ↦ ground (arith, e)
      | inr (p, e) ↦
          at-Stepped c y z p (stop_begin y p) (stop_begins name) v (λ i. stop_begin-Moved c y z p i)
            (ground (arith, e))
    ]
step-Stepped c y z (stop_ends p killed) v h =
    at-Stepped c y z p (stop_end y p killed) (stop_ends p killed) v
      (λ i. stop_end-Moved c y z p i killed) h
step-Stepped c y z (process_exits p) v h =
    at-Stepped c y z p (process_exit y p) (process_exits p) v (λ i. process_exit-Moved c y z p i) h
step-Stepped c y z (reserve p recheck) v h =
    at-Stepped c y z p _ (reserve p recheck) v
      (λ i. move-Moved c y z p i i.phase (reserve p recheck)) h
step-Stepped c y z (give_up p) v h =
    at-Stepped c y z p _ (give_up p) v (λ i. move-Moved c y z p i i.phase (give_up p)) h
step-Stepped c y z (confirm p) v h =
    at-Stepped c y z p _ (confirm p) v (λ i. move-Moved c y z p i i.phase (confirm p)) h
step-Stepped c y z (launch_fails p) v h =
    at-Stepped c y z p _ (launch_fails p) v (λ i. move-Moved c y z p i i.phase (launch_fails p)) h
step-Stepped c y z (launches p pid out err) v h =
    at-Stepped c y z p _ (launches p pid out err) v
      (λ i. move-Moved c y z p i i.phase (launches p pid out err)) h
step-Stepped c y z (start_fails p) v h =
    at-Stepped c y z p _ (start_fails p) v (λ i. move-Moved c y z p i i.phase (start_fails p)) h
step-Stepped c y z (returns_reserved p) v h =
    at-Stepped c y z p _ (returns_reserved p) v
      (λ i. move-Moved c y z p i i.phase (returns_reserved p)) h
step-Stepped c y z (becomes_ready p now) v h =
    at-Stepped c y z p _ (becomes_ready p now) v
      (λ i. move-Moved c y z p i i.phase (becomes_ready p now)) h
step-Stepped c y z (idle_fires p now) v h =
    at-Stepped c y z p _ (idle_fires p now) v (λ i. move-Moved c y z p i i.phase (idle_fires p now))
      h
