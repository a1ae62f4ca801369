-- ===== src/Connections/Changes.antt =====
-- connection.go, handleConnection: connections that come, and changes of phase that no count is about.
use large_model_proxy.Base.{
  ℕ, ◌+◌, ◌<◌, ◌≡◌, subst, String, Bool, false, List, [], ◌∷◌, ◌++◌, Dict, lookup_or,
  lookup_or-insert, insert, some, pos, get_elem?, length, length-append, str_eq, str_eq_self,
  eq_iff, one_if, arith, Bool-cases, inl, inr,
}
use large_model_proxy.Config.{ServiceConfig}
use large_model_proxy.Manager.{ServiceConnectionStats, changed_stats, no_connections}
use large_model_proxy.Services.Heap.{set}
use large_model_proxy.Connections.{Phase, closed, Connection}
use large_model_proxy.Connections.Counts.{
  is_waiting, is_proxied, weight, number_of, number_of-le, number_of-append, number_of-set, limit,
  IsCounted, delta, clamp-delta,
}

-- A change of phase that neither count is about.
pub kept-IsCounted :
    (stats : Dict ServiceConnectionStats) (ks : List Connection) (p : ℕ) (k j : Connection)
    → get_elem? ks p ≡ some k
    → j.service ≡ k.service
    → is_proxied j.phase ≡ is_proxied k.phase
    → is_waiting j.phase ≡ is_waiting k.phase
    → IsCounted stats ks
    → IsCounted stats (set ks p j)
kept-IsCounted stats ks p k j e s u v h n =
    let a : number_of is_proxied n (set ks p j) ≡ number_of is_proxied n ks =
      let w : weight is_proxied n j ≡ weight is_proxied n k = rw (s, u) in
      omega (arith, w, number_of-set is_proxied n ks p k j e) in
    let b : number_of is_waiting n (set ks p j) ≡ number_of is_waiting n ks =
      let w : weight is_waiting n j ≡ weight is_waiting n k = rw (s, v) in
      omega (arith, w, number_of-set is_waiting n ks p k j e) in
    rw (a, b) (h n)

abbrev pub joined_stats : Dict ServiceConnectionStats → Connection → Dict ServiceConnectionStats
joined_stats stats j =
    insert j.service.name
      (changed_stats (lookup_or no_connections j.service.name stats)
        (delta false (is_proxied j.phase)) (delta false (is_waiting j.phase)))
      stats

apart :
    (f : Phase → Bool) (ks : List Connection) (j : Connection) (n : String)
    → str_eq j.service.name n ≡ false
    → number_of f n (ks ++ j ∷ []) ≡ number_of f n ks
apart f ks j n e = let w : weight f n j ≡ 0 = rw e in omega (arith, w, number_of-append f n ks j)

pub joined-IsCounted :
    (stats : Dict ServiceConnectionStats) (ks : List Connection) (j : Connection)
    → length ks + 1 < limit
    → IsCounted stats ks
    → IsCounted (joined_stats stats j) (ks ++ j ∷ [])
joined-IsCounted stats ks j few h n =
    let name = j.service.name in
    let weigh : (f : Phase → Bool) → weight f name j ≡ one_if (f j.phase) = λ f. rw str_eq_self in
    let clamped = λ (f : Phase → Bool).
      clamp-delta false (f j.phase) (number_of f name ks) (number_of f name (ks ++ j ∷ []))
        (omega (arith, number_of-le f name ks))
        (omega (arith, number_of-le f name (ks ++ j ∷ []), length-append ks (j ∷ [])))
        (omega (arith, weigh f, number_of-append f name ks j)) in
    elim (Bool-cases (str_eq name n)) [
      | inl e ↦
          subst
            (λ n. lookup_or no_connections n (joined_stats stats j) ≡ record {
              proxied = pos (number_of is_proxied n (ks ++ j ∷ []));
              waiting = pos (number_of is_waiting n (ks ++ j ∷ []));
            })
            ((eq_iff name n).0 e)
            (rw (lookup_or-insert, str_eq_self, h name, clamped is_proxied, clamped is_waiting))
      | inr e ↦
          let a = apart is_proxied ks j n e in
          let b = apart is_waiting ks j n e in rw (lookup_or-insert, e, a, b) (h n)
    ]

pub closed-IsCounted :
    (stats : Dict ServiceConnectionStats) (ks : List Connection) (s : ServiceConfig)
    → IsCounted stats ks
    → IsCounted stats (ks ++ record { service = s; phase = closed } ∷ [])
closed-IsCounted stats ks s h n =
    let j : Connection = record { service = s; phase = closed } in
    let a : number_of is_proxied n (ks ++ j ∷ []) ≡ number_of is_proxied n ks =
      ground (arith, number_of-append is_proxied n ks j) in
    let b : number_of is_waiting n (ks ++ j ∷ []) ≡ number_of is_waiting n ks =
      ground (arith, number_of-append is_waiting n ks j) in
    rw (a, b) (h n)
