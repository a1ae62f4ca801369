-- ===== src/Services/Stops.antt =====
-- service_process.go, lines 177-321: what a stop and a process's end do to an instance and the books.
use large_model_proxy.Base.{ℕ, ◌≡◌, refl, Bool, true, false, inl, inr, some, arith, Option-cases}
use large_model_proxy.Config.{Config}
use large_model_proxy.Manager.{RunningService}
use large_model_proxy.Services.{
  Phase, waiting, Instance, System, clean_up, put, clean_instance, default_true, stop_begin,
  stop_end, process_exit,
}
use large_model_proxy.Resources.Amounts.{held}
use large_model_proxy.Services.Sums.{kept}
use large_model_proxy.Services.Locks.{IsSound, SoundIn, clean_up-flags, is_taken}
use large_model_proxy.Services.Moves.{Moved, puts, cleans, never_joins}

stop_begin-IsSound :
    (ph : Phase) (rs : RunningService) (stopping : Bool)
    → SoundIn ph rs stopping × (stopping ≡ true → rs.manage_mutex ≡ true)
    → rs.manage_mutex ≡ false
    → SoundIn ph (record rs { manage_mutex = true }) true
      × (◌≡◌ {A = Bool} true true → ◌≡◌ {A = Bool} true true)
stop_begin-IsSound waiting rs stopping v free = ground arith
stop_begin-IsSound _ rs stopping v free = ground arith

pub stop_begin-Moved :
    (c : Config) (y z : System) (p : ℕ) (i : Instance)
    → IsSound i
    → stop_begin y p i ≡ some z
    → Moved c y z p i
unfolding stop_begin
stop_begin-Moved c y z p i v h =
    let j = record i { stopping = true; running = record i.running { manage_mutex = true } } in
    let (free, e) = unlocked in
    rw e (
      puts c y p i j y.manager refl (refl, refl)
        (stop_begin-IsSound i.phase i.running i.stopping v free) (kept refl refl) (kept refl refl)
        (never_joins i j refl))
  where
    unlocked :
        (i.running.manage_mutex ≡ false)
        × (z
            ≡ put y p
                (record i { stopping = true; running = record i.running { manage_mutex = true } })
                y.manager)
    unlocked = ground arith

-- What clean_up-flags says of the flags before and after.
abbrev Flags : Bool → RunningService → RunningService → Type 0
Flags b rs rs' =
    (rs'.resources_reserved ≡ rs.resources_reserved)
    × (rs'.manage_mutex ≡ rs.manage_mutex)
    × (rs'.cmd ≡ rs.cmd)
    × (rs.resources_released ≡ true → rs'.resources_released ≡ true)
    × (b ≡ true → rs'.resources_released ≡ true)

stop_end-IsSound :
    (ph : Phase) (rs rs' : RunningService) (stopping : Bool) {b : Bool}
    → SoundIn ph rs stopping × (stopping ≡ true → rs.manage_mutex ≡ true)
    → stopping ≡ true
    → Flags b (record rs { manage_mutex = false }) rs'
    → (is_taken ph ≡ false) × SoundIn ph rs' false
stop_end-IsSound waiting rs rs' stopping v held f = ground arith
stop_end-IsSound _ rs rs' stopping v held f = ground arith

process_exit-IsSound :
    (ph : Phase) (rs rs' : RunningService) (stopping : Bool) (pid : ℕ) {b : Bool}
    → SoundIn ph rs stopping × (stopping ≡ true → rs.manage_mutex ≡ true)
    → rs.cmd ≡ some pid
    → Flags b rs rs'
    → (is_taken ph ≡ false) × SoundIn ph rs' stopping
process_exit-IsSound waiting rs rs' stopping pid v e f = ground arith
process_exit-IsSound _ rs rs' stopping pid v e f = ground arith

pub stop_end-Moved :
    (c : Config) (y z : System) (p : ℕ) (i : Instance) (killed : Bool)
    → IsSound i
    → stop_end y p killed i ≡ some z
    → Moved c y z p i
unfolding stop_end
stop_end-Moved c y z p i killed v h =
    let j = record i { stopping = false; running = record i.running { manage_mutex = false } } in
    let (held, e) = stopped in
    let (n, sound) =
      stop_end-IsSound i.phase i.running (clean_up i.service p killed j.running y.manager).0
        i.stopping v held (clean_up-flags i.service p killed j.running y.manager) in
    rw e (
      cleans c y p i j killed y.manager n refl refl refl (refl, refl) (kept refl refl)
        (sound, λ k. cc))
  where
    stopped :
        (i.stopping ≡ true)
        × (z
            ≡ clean_instance y p killed (record i {
              stopping = false;
              running = record i.running { manage_mutex = false };
            }))
    stopped = ground arith

pub process_exit-Moved :
    (c : Config) (y z : System) (p : ℕ) (i : Instance)
    → IsSound i
    → process_exit y p i ≡ some z
    → Moved c y z p i
unfolding process_exit
process_exit-Moved c y z p i v h = elim (Option-cases i.running.cmd) [
  | inl e ↦ ground (arith, e)
  | inr (pid, e) ↦
      let b = default_true i.service.consider_stopped_on_process_exit in
      let k : z ≡ clean_instance y p b i = ground (arith, e) in
      let flags = clean_up-flags i.service p b i.running y.manager in
      let (n, sound) =
        process_exit-IsSound i.phase i.running (clean_up i.service p b i.running y.manager).0
          i.stopping pid v e flags in
      rw k (
        cleans c y p i i b y.manager n refl refl refl (refl, refl) (kept refl refl)
          (sound, ground (arith, flags)))
]
