-- ===== src/Shutdown/Signals.antt =====
-- main.go, the loop behind a signal, and stopRunningService: no process is left without a signal.
use large_model_proxy.Base.{
  ℕ, ◌≡◌, refl, sym, ap, value_or, String, true, false, List, [], ◌∷◌, ◌++◌, Dict, lookup,
  Option-cases, some, get_elem?, All, Any, inl, inr, ◌⊎◌, ◌∙◌, Bool-cases, arith,
}
use large_model_proxy.Config.{ServiceConfig}
use large_model_proxy.Manager.{ResourceManager, RunningService}
use large_model_proxy.Shutdown.{
  Call, sends_sigterm, sends_sigkill, runs_kill_command, Answers, end_process, stop_running_service,
  shut_down,
}

-- A call happens, and then another one.
abbrev pub Then : Call → Call → List Call → Type 0
Then first second [] = ⊥
Then first second (call ∷ calls) =
    ((call ≡ first) × Any (λ c. c ≡ second) calls) ⊎ Then first second calls

abbrev Made : Call → List Call → Type 0
Made call = Any (λ c. c ≡ call)

same {ℓ} : {A : Type ℓ} {a b : A} → some a ≡ some b → b ≡ a
same {b = b} h = sym (ap (value_or b) h)

Made-left : (call : Call) (xs ys : List Call) → Made call xs → Made call (xs ++ ys)
Made-left call [] ys h = absurd h
Made-left call (x ∷ xs) ys (inl e) = inl e
Made-left call (x ∷ xs) ys (inr h) = inr (Made-left call xs ys h)

Made-right : (call : Call) (xs ys : List Call) → Made call ys → Made call (xs ++ ys)
Made-right call [] ys h = h
Made-right call (x ∷ xs) ys h = inr (Made-right call xs ys h)

Then-left : (a b : Call) (xs ys : List Call) → Then a b xs → Then a b (xs ++ ys)
Then-left a b [] ys h = absurd h
Then-left a b (x ∷ xs) ys (inl (e, h)) = inl (e, Made-left b xs ys h)
Then-left a b (x ∷ xs) ys (inr h) = inr (Then-left a b xs ys h)

Then-right : (a b : Call) (xs ys : List Call) → Then a b ys → Then a b (xs ++ ys)
Then-right a b [] ys h = h
Then-right a b (x ∷ xs) ys h = inr (Then-right a b xs ys h)

-- What the calls do for a process: it is told to end, is killed behind that unless it ended in time,
-- and its service's kill command runs before.
abbrev pub IsEnded : ServiceConfig → Answers → ℕ → List Call → Type 0
IsEnded s a pid calls =
    Made (sends_sigterm pid) calls
    × (a.exits_in_time ≡ false → Then (sends_sigterm pid) (sends_sigkill pid) calls)
    × ((command : String)
        → s.kill_command ≡ some command
        → Then (runs_kill_command command) (sends_sigterm pid) calls)

IsEnded-left :
    (s : ServiceConfig) (a : Answers) (pid : ℕ) (xs ys : List Call)
    → IsEnded s a pid xs
    → IsEnded s a pid (xs ++ ys)
IsEnded-left s a pid xs ys (f, g, h) =
    (Made-left _ xs ys f, λ e. Then-left _ _ xs ys (g e), λ c e. Then-left _ _ xs ys (h c e))

IsEnded-right :
    (s : ServiceConfig) (a : Answers) (pid : ℕ) (xs ys : List Call)
    → IsEnded s a pid ys
    → IsEnded s a pid (xs ++ ys)
IsEnded-right s a pid xs ys (f, g, h) =
    (Made-right _ xs ys f, λ e. Then-right _ _ xs ys (g e), λ c e. Then-right _ _ xs ys (h c e))

end_process-IsEnded :
    (s : ServiceConfig) (a : Answers) (pid : ℕ) → IsEnded s a pid (end_process s a (some pid)).0
unfolding end_process
end_process-IsEnded s a pid = elim (Option-cases s.kill_command) [
  | inl k ↦ elim (Bool-cases a.exits_in_time) [
    | inl b ↦ rw (k, b, end_process) (inl refl, λ e. ground (arith, e), λ c e. ground (arith, e))
    | inr b ↦ rw (k, b, end_process) (inl refl, λ e. inl (refl, inl refl), λ c e. ground (arith, e))
  ]
  | inr (command, k) ↦ elim (Bool-cases a.exits_in_time) [
    | inl b ↦
        rw (k, b, end_process)
          (
            inr (inl refl),
            λ e. ground (arith, e),
            λ c e. inl (ap runs_kill_command (sym (same e)), inl refl),
          )
    | inr b ↦
        rw (k, b, end_process)
          (
            inr (inl refl),
            λ e. inr (inl (refl, inl refl)),
            λ c e. inl (ap runs_kill_command (sym (same e)), inl refl),
          )
  ]
]

-- A running service of the map with its process, as the system of processes sees it.
abbrev pub IsEndedAt :
    Dict ServiceConfig → List RunningService → (ℕ → Answers) → List Call → String × ℕ → Type 0
IsEndedAt configs heap answers calls (name, p) =
    (s : ServiceConfig) (running : RunningService) (pid : ℕ)
    → lookup name configs ≡ some s
    → get_elem? heap p ≡ some running
    → running.cmd ≡ some pid
    → IsEnded s (answers p) pid calls

abbrev pub IsKnown : Dict ServiceConfig → List RunningService → String × ℕ → Type 0
IsKnown configs heap (name, p) =
    ((s : ServiceConfig) × (lookup name configs ≡ some s))
    × ((running : RunningService) × (get_elem? heap p ≡ some running))

module _ (configs : Dict ServiceConfig) (heap : List RunningService) (answers : ℕ → Answers) where
  more-IsEndedAt :
      (calls later : List Call) (entries : Dict ℕ)
      → All (IsEndedAt configs heap answers later) entries
      → All (IsEndedAt configs heap answers (calls ++ later)) entries
  more-IsEndedAt calls later [] h = tt
  more-IsEndedAt calls later ((name, p) ∷ entries) (f, h) = (
    λ s running pid a b c. IsEnded-right s (answers p) pid calls later (f s running pid a b c),
    more-IsEndedAt calls later entries h,
  )

  stopped-IsEnded :
      (s : ServiceConfig) (p pid : ℕ) (running : RunningService) (m : ResourceManager)
      → running.cmd ≡ some pid
      → IsEnded s (answers p) pid (stop_running_service true s p (answers p) running m).0
  unfolding stop_running_service
  stopped-IsEnded s p pid running m e = rw e (end_process-IsEnded s (answers p) pid)

  -- When every running service is configured and has its struct, the shutdown does not panic, and every
  -- service with a process has its process group sent SIGTERM, behind its kill command if it has one,
  -- and SIGKILL behind that unless the process has ended in time.
  pub shut_down-ends_all :
      (entries : Dict ℕ) (m : ResourceManager)
      → All (IsKnown configs heap) entries
      → (calls : List Call) × (shut_down configs heap answers entries m ≡ some calls)
        × All (IsEndedAt configs heap answers calls) entries
  unfolding shut_down
  shut_down-ends_all [] m known = ([], refl, tt)
  shut_down-ends_all ((name, p) ∷ entries) m (((s, e), (running, f)), known) =
      let (later, g, h) = shut_down-ends_all entries m known in
      let calls = (stop_running_service true s p (answers p) running m).0 in
      (
        calls ++ later,
        rw (shut_down, e, f, g) refl,
        (
          (λ s' running' pid a b c.
              let own : s' ≡ s = same (sym e ∙ a) in
              let struct : running' ≡ running = same (sym f ∙ b) in
              IsEnded-left s' (answers p) pid calls later
                (rw own (stopped-IsEnded s p pid running m (rw struct at c)))),
          more-IsEndedAt calls later entries h,
        ),
      )
