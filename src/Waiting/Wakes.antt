-- ===== src/Waiting/Wakes.antt =====
-- resources.go, reserveResources: a service in its select hears of every change of its resource.
use large_model_proxy.Base.{
  ℕ, zero, suc, ◌≡◌, refl, ◌∙◌, String, Bool, true, List, [], ◌∷◌, Dict, Option-cases, lookup, inl,
  inr, none, Option, some, get_elem?, str_eq_self, arith,
}
use large_model_proxy.Config.{Config, ServiceConfig}
use large_model_proxy.Manager.{
  ResourceManager, Channel, try_send, lookup-adjust, lookup-send_signal_to_channels,
  broadcast_resource_change,
}
use large_model_proxy.Manager.Wakeups.{IsRegistered}
use large_model_proxy.Services.Heap.{set}
use large_model_proxy.Waiting.{
  selecting, deciding, Waiter, Hall, Action, moves, receives, announces, receive_change,
  remove_change, move, step, run, channel_of,
}
use large_model_proxy.Waiting.Registered.{registered}
use large_model_proxy.Waiting.Passes.{waits_for}
use large_model_proxy.Waiting.Listeners.{AreDistinct, IsQuiet, listeners_follow_phases}

get_elem?-set-same {ℓ} :
    {A : Type ℓ} (xs : List A) (i : ℕ) (v w : A)
    → get_elem? xs i ≡ some w
    → get_elem? (set xs i v) i ≡ some v
get_elem?-set-same [] i v w h = ground (arith, h)
get_elem?-set-same (x ∷ xs) zero v w h = refl
get_elem?-set-same (x ∷ xs) (suc i) v w h = get_elem?-set-same xs i v w h

waits_for-IsRegistered :
    (r k : String) (m : ResourceManager) → waits_for r k m ≡ true → IsRegistered r k m
unfolding registered
waits_for-IsRegistered r k m h =
    elim (Option-cases (lookup r m.resource_change_by_resource_chans)) [
      | inl e ↦ ground (arith, h, e)
      | inr (chans, e) ↦ elim (Option-cases (lookup k chans)) [
        | inl f ↦ ground (arith, h, e, f)
        | inr (c, f) ↦ (chans, e, (c, f))
      ]
    ]

-- The value that a service receives behind an announcement: what its channel holds already, or what
-- is announced.
abbrev pub received : Option (Channel Bool) → Bool → Bool
received none recheck = recheck
received (some none) recheck = recheck
received (some (some earlier)) recheck = earlier

try_send-received :
    (c : Channel Bool) (recheck : Bool) → try_send recheck c ≡ some (received (some c) recheck)
unfolding try_send
try_send-received none recheck = refl
try_send-received (some earlier) recheck = refl

receive_change-announced :
    (r k : String) (recheck : Bool) (m : ResourceManager)
    → IsRegistered r k m
    → let m' = broadcast_resource_change m r recheck in
      receive_change r k m'
      ≡ some (
        remove_change r k m',
        received (channel_of r k m.resource_change_by_resource_chans) recheck,
      )
unfolding receive_change broadcast_resource_change
receive_change-announced r k recheck m (chans, e, (c, f)) =
    let held : channel_of r k m.resource_change_by_resource_chans ≡ some c =
      rw (channel_of, e, f) refl in
    rw held (
      rw
        (
          receive_change,
          broadcast_resource_change,
          lookup-adjust,
          str_eq_self,
          e,
          lookup-send_signal_to_channels,
          f,
          try_send-received c recheck,
        )
        refl)

receives_next :
    (c : Config) (configs : Dict ServiceConfig) (h : Hall) (i : ℕ) (w : Waiter) (r : String)
    (m : ResourceManager) (b : Bool)
    → get_elem? h.waiters i ≡ some w
    → w.phase ≡ selecting r
    → receive_change r w.service.name h.manager ≡ some (m, b)
    → get_elem? (step c configs h (moves i receives)).waiters i
      ≡ some (record w { phase = deciding b })
unfolding step move
receives_next c configs h i w r m b e p f =
    rw (step, e, p, move, f) (get_elem?-set-same h.waiters i (record w { phase = deciding b }) w e)

-- From a state in which no service waits or is registered, after any schedule of the steps of services of
-- different names, a service that stands in its select for a resource can receive as soon as a change
-- of the resource is announced, and is back at the top of its loop then, with the value that its
-- channel held before the announcement, or with the announced one if the channel was empty.
pub announced_is_received :
    (c : Config) (configs : Dict ServiceConfig) (h : Hall) (schedule : List Action) (i : ℕ)
    (w : Waiter) (r : String) (recheck : Bool)
    → AreDistinct h.waiters
    → IsQuiet h
    → let u = run c configs h schedule in
      get_elem? u.waiters i ≡ some w
      → w.phase ≡ selecting r
      → get_elem?
          (step c configs (step c configs u (announces r recheck)) (moves i receives)).waiters
          i
        ≡ some (record w {
          phase = deciding (
              received
                (channel_of r w.service.name u.manager.resource_change_by_resource_chans)
                recheck);
        })
unfolding step
announced_is_received c configs h schedule i w r recheck d f e p =
    let u = run c configs h schedule in
    let there : waits_for r w.service.name u.manager ≡ true =
      (listeners_follow_phases c configs h schedule d f i w e r).0 ∙ rw (p, str_eq_self) refl in
    receives_next c configs (step c configs u (announces r recheck)) i w r _ _ e p (
      receive_change-announced r w.service.name recheck u.manager
        (waits_for-IsRegistered r w.service.name u.manager there))
