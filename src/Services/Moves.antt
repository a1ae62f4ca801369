-- ===== src/Services/Moves.antt =====
-- service.go, lines 72-213: what one step of startService does to its instance and to the books.
use large_model_proxy.Base.{
  ℕ, ◌+◌, ◌≡◌, refl, subst, Bool, true, false, inl, inr, some, All, arith, Option-cases,
}
use large_model_proxy.Config.{Config, ServiceConfig, get_idle_timeout}
use large_model_proxy.Idle.{idle_timer_fires, fire_set_timer}
use large_model_proxy.Manager.{ResourceManager, RunningService}
use large_model_proxy.Resources.{
  release_reserved_resources, reserve_pass, Pass, reserved, waits_for_checks, lacks,
}
use large_model_proxy.Resources.Missing.{Fits}
use large_model_proxy.Resources.Reserve.{Outcome, reserve_pass-Outcome}
use large_model_proxy.Services.{
  Phase, waiting, taken, launching, starting, failing, ready, gone, Instance, System, Action,
  clean_up, put, clean_instance, reserve, give_up, confirm, launch_fails, launches, start_fails,
  returns_reserved, becomes_ready, idle_fires, move, after_pass,
}
use large_model_proxy.Resources.Amounts.{held}
use large_model_proxy.Services.Heap.{set}
use large_model_proxy.Services.Listing.{Listing, clean_up-Listing}
use large_model_proxy.Services.Sums.{
  Change, kept, taken as takes, released, Change-source, Change-target,
}
use large_model_proxy.Services.Locks.{
  holds_in_use, holds_reserved, IsSound, cleaned, clean_up-Change, clean_up-reserved,
  clean_up-flags, is_taken,
}

-- A step that changes the instance `p` from `i` to `j`, and the books with it.
pub record Moved (c : Config) (y z : System) (p : ℕ) (i : Instance) : Type 0 where
  pub to : Instance
  pub manager : ResourceManager
  pub result : z ≡ record { manager = manager; instances = set y.instances p to }
  pub same : to.service ≡ i.service
  pub sound : IsSound to
  pub in_use : Change holds_in_use i to y.manager.resources_in_use manager.resources_in_use
  pub reserved : Change holds_reserved i to y.manager.resources_reserved manager.resources_reserved
  pub listing : Listing p i to y.manager.running_services manager.running_services
  pub fits :
      holds_in_use i ≡ false
      → holds_in_use to ≡ true
      → All (Fits c y.manager) i.service.resource_requirements

-- An instance whose share stays does not join, nor does one that is cleaned up.
pub never_joins :
    {P : Type 0} (i j : Instance)
    → holds_in_use j ≡ holds_in_use i
    → holds_in_use i ≡ false
    → holds_in_use j ≡ true
    → P
never_joins i j h a b = cc

cleaned_never_joins :
    {P : Type 0} (i j : Instance) (p : ℕ) (b : Bool) (m : ResourceManager)
    → is_taken j.phase ≡ false
    → holds_in_use j ≡ holds_in_use i
    → holds_in_use i ≡ false
    → holds_in_use (cleaned j (clean_up j.service p b j.running m).0) ≡ true
    → P
cleaned_never_joins i j p b m n w h k = ground (arith, clean_up-flags j.service p b j.running m)

pub cleans :
    (c : Config) (y : System) (p : ℕ) (i j : Instance) (b : Bool) (m : ResourceManager)
    → is_taken j.phase ≡ false
    → j.service ≡ i.service
    → holds_in_use j ≡ holds_in_use i
    → m.resources_in_use ≡ y.manager.resources_in_use
    → (j.running.resources_released ≡ i.running.resources_released)
      × (m.running_services ≡ y.manager.running_services)
    → Change holds_reserved i j y.manager.resources_reserved m.resources_reserved
    → IsSound (cleaned j (clean_up j.service p b j.running m).0)
    → Moved c y (clean_instance (record y { manager = m }) p b j) p i
unfolding clean_instance
cleans c y p i j b m n s w u l r sound = record {
  to = cleaned j (clean_up j.service p b j.running m).0;
  manager = (clean_up j.service p b j.running m).1;
  result = unfold put in refl;
  same = s;
  sound = sound;
  in_use =
      subst
        (λ d.
          Change holds_in_use i (cleaned j (clean_up j.service p b j.running m).0) d
            (clean_up j.service p b j.running m).1.resources_in_use)
        u
        (Change-source holds_in_use i j (cleaned j (clean_up j.service p b j.running m).0)
          m.resources_in_use (clean_up j.service p b j.running m).1.resources_in_use w s
          (clean_up-Change j p b m n));
  reserved =
      Change-target holds_reserved i j (cleaned j (clean_up j.service p b j.running m).0)
        y.manager.resources_reserved m.resources_reserved
        (clean_up j.service p b j.running m).1.resources_reserved refl refl
        (clean_up-reserved j.service p b j.running m) r;
  listing = clean_up-Listing i j p b m y.manager.running_services s l.0 l.1;
  fits = cleaned_never_joins i j p b m n w;
}

-- What IsSound asks of each phase, given the phase.
abbrev pub phased : Instance → Phase → Instance
phased i ph = record i { phase = ph }

-- A step that gives the instance a new state and the manager new books.
pub puts :
    (c : Config) (y : System) (p : ℕ) (i j : Instance) (m : ResourceManager)
    → j.service ≡ i.service
    → (j.running.resources_released ≡ i.running.resources_released)
      × (m.running_services ≡ y.manager.running_services)
    → IsSound j
    → Change holds_in_use i j y.manager.resources_in_use m.resources_in_use
    → Change holds_reserved i j y.manager.resources_reserved m.resources_reserved
    → (holds_in_use i ≡ false
        → holds_in_use j ≡ true
        → All (Fits c y.manager) i.service.resource_requirements)
    → Moved c y (put y p j m) p i
puts c y p i j m s l sound u r fits = record {
  to = j;
  manager = m;
  result = unfold put in refl;
  same = s;
  sound = sound;
  in_use = u;
  reserved = r;
  listing = inl l;
  fits = fits;
}

after_pass-Moved :
    (c : Config) (y : System) (p : ℕ) (i : Instance) (r : ResourceManager × Pass)
    → IsSound (phased i waiting)
    → Outcome c i.service.resource_requirements y.manager r.0 r.1
    → Moved c y (after_pass y p (phased i waiting) r) p (phased i waiting)
unfolding after_pass
after_pass-Moved c y p i (m, reserved) v (fits, used, held, _, runs) =
    puts c y p (phased i waiting) (phased i taken) m refl (refl, runs) v
      (takes (ground arith) refl used) (takes refl refl held) (λ _ _. fits)
after_pass-Moved c y p i (m, waits_for_checks rs) v same =
    puts c y p (phased i waiting) (phased i waiting) m refl (refl, same.running) v
      (kept refl same.in_use) (kept refl same.reserved)
      (never_joins (phased i waiting) (phased i waiting) refl)
after_pass-Moved c y p i (m, lacks r) v (same, _) =
    puts c y p (phased i waiting) (phased i waiting) m refl (refl, same.running) v
      (kept refl same.in_use) (kept refl same.reserved)
      (never_joins (phased i waiting) (phased i waiting) refl)

move-reserve :
    (c : Config) (y z : System) (p q : ℕ) (i : Instance) (recheck : Bool)
    → IsSound (phased i waiting)
    → move c y p (phased i waiting) waiting (reserve q recheck) ≡ some z
    → Moved c y z p (phased i waiting)
unfolding move
move-reserve c y z p q i recheck v h =
    let pass = reserve_pass c i.service.resource_requirements i.service.name recheck y.manager in
    elim (Option-cases pass) [
      | inl e ↦ ground (arith, e)
      | inr ((m, r), e) ↦
          let k : z ≡ after_pass y p (phased i waiting) (m, r) = ground (arith, e) in
          rw k (
            after_pass-Moved c y p i (m, r) v
              (reserve_pass-Outcome c i.service.resource_requirements i.service.name recheck
                y.manager m r e))
    ]

-- The callback changes nothing but the timer.
idle_timer_fires-flags :
    (c : Config) (s : ServiceConfig) (now : ℕ) (rs : RunningService) (m : ResourceManager)
    → let rs' = (idle_timer_fires c s false now rs m).0 in
      (rs'.resources_reserved ≡ rs.resources_reserved)
      × (rs'.manage_mutex ≡ rs.manage_mutex)
      × (rs'.cmd ≡ rs.cmd)
      × (rs'.resources_released ≡ rs.resources_released)
unfolding idle_timer_fires fire_set_timer
idle_timer_fires-flags c s now rs m = elim (Option-cases rs.idle_timer) [
  | inl e ↦ ground (arith, e)
  | inr (t, e) ↦ ground (arith, e)
]

pub move-Moved :
    (c : Config) (y z : System) (p : ℕ) (i : Instance) (ph : Phase) (a : Action)
    → IsSound (phased i ph)
    → move c y p (phased i ph) ph a ≡ some z
    → Moved c y z p (phased i ph)
unfolding move
move-Moved c y z p i waiting (reserve q recheck) v h = move-reserve c y z p q i recheck v h
move-Moved c y z p i waiting (give_up q) v h =
    let j = record i { phase = gone; running = record i.running { manage_mutex = false } } in
    let e : z ≡ clean_instance y p true j = cc in
    let flags = clean_up-flags j.service p true j.running y.manager in
    rw e (
      cleans c y p (phased i waiting) j true y.manager refl refl refl refl (refl, refl)
        (kept refl refl) (inr (flags.4 refl), ground (arith, flags)))
move-Moved c y z p i taken (confirm q) v h =
    let j = record i {
      phase = launching;
      running = record i.running { is_waiting_for_resources = false; resources_reserved = true };
    } in
    let e : z ≡ put y p j y.manager = cc in
    rw e (
      puts c y p (phased i taken) j y.manager refl (refl, refl) (ground arith)
        (kept (ground arith) refl) (kept refl refl) (never_joins (phased i taken) j (ground arith)))
move-Moved c y z p i launching (launch_fails q) v h =
    let m = release_reserved_resources i.service.resource_requirements y.manager in
    let j = record i { phase = gone; running = record i.running { manage_mutex = false } } in
    let e : z ≡ clean_instance (record y { manager = m }) p true j = cc in
    let flags = clean_up-flags j.service p true j.running m in
    rw e (
      cleans c y p (phased i launching) j true m refl refl refl
        (unfold release_reserved_resources in refl)
        (refl, unfold release_reserved_resources in refl)
        (released refl refl (unfold release_reserved_resources in refl))
        (inr (flags.4 refl), ground (arith, flags)))
move-Moved c y z p i launching (launches q pid out err) v h =
    let j = record i {
      phase = starting;
      running = record i.running { cmd = some pid; stdout_writer = out; stderr_writer = err };
    } in
    let e : z ≡ put y p j y.manager = cc in
    rw e (
      puts c y p (phased i launching) j y.manager refl (refl, refl) (ground arith) (kept refl refl)
        (kept refl refl) (never_joins (phased i launching) j refl))
move-Moved c y z p i starting (start_fails q) v h =
    let j = record i { phase = failing; running = record i.running { manage_mutex = false } } in
    let e : z ≡ put y p j y.manager = cc in
    rw e (
      puts c y p (phased i starting) j y.manager refl (refl, refl) (ground arith) (kept refl refl)
        (kept refl refl) (never_joins (phased i starting) j refl))
move-Moved c y z p i failing (returns_reserved q) v h =
    let m = release_reserved_resources i.service.resource_requirements y.manager in
    let e : z ≡ put y p (phased i gone) m = cc in
    rw e (
      puts c y p (phased i failing) (phased i gone) m refl
        (refl, unfold release_reserved_resources in refl) (ground arith)
        (kept refl (unfold release_reserved_resources in refl))
        (released refl refl (unfold release_reserved_resources in refl))
        (never_joins (phased i failing) (phased i gone) refl))
move-Moved c y z p i starting (becomes_ready q now) v h =
    let m = release_reserved_resources i.service.resource_requirements y.manager in
    let j = record i {
      phase = ready;
      running = record i.running {
        is_ready = true;
        idle_timer = some (now + get_idle_timeout c i.service);
        manage_mutex = false;
      };
    } in
    let e : z ≡ put y p j m = cc in
    rw e (
      puts c y p (phased i starting) j m refl (refl, unfold release_reserved_resources in refl)
        (ground arith) (kept refl (unfold release_reserved_resources in refl))
        (released refl refl (unfold release_reserved_resources in refl))
        (never_joins (phased i starting) j refl))
move-Moved c y z p i ready (idle_fires q now) v h =
    let j = record i { running = (idle_timer_fires c i.service false now i.running y.manager).0 } in
    let flags = idle_timer_fires-flags c i.service now i.running y.manager in
    let e : z ≡ put y p (phased j ready) y.manager = cc in
    rw e (
      puts c y p (phased i ready) (phased j ready) y.manager refl (flags.3, refl)
        (ground (arith, flags)) (kept (ground (arith, flags)) refl) (kept refl refl)
        (never_joins (phased i ready) (phased j ready) (ground (arith, flags))))
move-Moved c y z p i _ _ v h = cc
