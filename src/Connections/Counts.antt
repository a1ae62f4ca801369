-- ===== src/Connections/Counts.antt =====
-- connection.go and main.go: the counts of connections are the connections.
use large_model_proxy.Base.{
  ℕ, zero, suc, ◌+◌, ◌≤◌, ◌<◌, ◌≡◌, refl, ap, String, Bool, true, false, List, [], ◌∷◌, ◌++◌, Dict,
  lookup, lookup_or, lookup_or-insert, insert, some, ℤ, pos, negsuc, add, wrap, ◌+ℤ◌, get_elem?,
  length, str_eq, eq_iff, one_if, subst, str_eq_self, arith, Bool-cases, Option-cases, inl, inr,
  ◌&&◌,
}
use large_model_proxy.Config.{ServiceConfig}
use large_model_proxy.Manager.{
  ResourceManager, ServiceConnectionStats, increment_connection, changed_stats, no_connections,
  clamp, broadcast_resource_changes, broadcast_resource_change, keys, is_zero,
}
use large_model_proxy.Services.Heap.{set}
use large_model_proxy.Connections.{Phase, connecting, connected, proxying, leaving, Connection}

-- The connections that a service's two counts are about.
abbrev pub is_waiting : Phase → Bool
is_waiting connecting = true
is_waiting connected = true
is_waiting _ = false

abbrev pub is_proxied : Phase → Bool
is_proxied proxying = true
is_proxied leaving = true
is_proxied _ = false

abbrev pub weight : (Phase → Bool) → String → Connection → ℕ
weight f n k = one_if (str_eq k.service.name n && f k.phase)

unfoldable pub number_of : (Phase → Bool) → String → List Connection → ℕ
number_of f n [] = 0
number_of f n (k ∷ ks) = weight f n k + number_of f n ks

pub number_of-le :
    (f : Phase → Bool) (n : String) (ks : List Connection) → number_of f n ks ≤ length ks
unfolding number_of
number_of-le f n [] = omega arith
number_of-le f n (k ∷ ks) = ground (arith, number_of-le f n ks)

pub number_of-append :
    (f : Phase → Bool) (n : String) (ks : List Connection) (k : Connection)
    → number_of f n (ks ++ k ∷ []) ≡ number_of f n ks + weight f n k
unfolding number_of
number_of-append f n [] k = omega arith
number_of-append f n (x ∷ ks) k = omega (arith, number_of-append f n ks k)

pub number_of-set :
    (f : Phase → Bool) (n : String) (ks : List Connection) (p : ℕ) (k j : Connection)
    → get_elem? ks p ≡ some k
    → number_of f n (set ks p j) + weight f n k ≡ number_of f n ks + weight f n j
unfolding number_of
number_of-set f n [] p k j h = ground (arith, h)
number_of-set f n (x ∷ ks) zero k j h = let e : x ≡ k = cc h in rw e (omega arith)
number_of-set f n (x ∷ ks) (suc p) k j h = omega (arith, number_of-set f n ks p k j h)

pub length-set : (ks : List Connection) (p : ℕ) (k : Connection) → length (set ks p k) ≡ length ks
length-set [] p k = refl
length-set (x ∷ ks) zero k = refl
length-set (x ∷ ks) (suc p) k = ap suc (length-set ks p k)

-- Go's `int` holds every count of fewer connections than this.
abbrev pub limit : ℕ
limit = 9223372036854775808

-- The counts say how many connections wait and how many are proxied, for every service.
abbrev pub IsCounted : Dict ServiceConnectionStats → List Connection → Type 0
IsCounted stats ks =
    (n : String)
    → lookup_or no_connections n stats ≡ record {
      proxied = pos (number_of is_proxied n ks);
      waiting = pos (number_of is_waiting n ks);
    }

broadcast_resource_changes-connection_stats :
    (m : ResourceManager) (rs : List String) (b : Bool)
    → (broadcast_resource_changes m rs b).connection_stats ≡ m.connection_stats
unfolding broadcast_resource_changes broadcast_resource_change
broadcast_resource_changes-connection_stats m [] b = refl
broadcast_resource_changes-connection_stats m (r ∷ rs) b =
    broadcast_resource_changes-connection_stats (broadcast_resource_change m r b) rs b

pub increment_connection-connection_stats :
    (configs : Dict ServiceConfig) (m : ResourceManager) (name : String) (a b : ℤ)
    → (increment_connection configs m name a b).connection_stats
      ≡ insert name
          (changed_stats (lookup_or no_connections name m.connection_stats) a b)
          m.connection_stats
unfolding increment_connection
increment_connection-connection_stats configs m name a b =
    let stats = changed_stats (lookup_or no_connections name m.connection_stats) a b in
    let m' = record m { connection_stats = insert name stats m.connection_stats } in
    elim (Bool-cases (is_zero stats.proxied && is_zero stats.waiting)) [
      | inr e ↦ rw e
      | inl e ↦ elim (Option-cases (lookup name configs)) [
        | inl f ↦ rw (e, f)
        | inr (s, f) ↦
            rw (e, f)
              (broadcast_resource_changes-connection_stats m' (keys s.resource_requirements) true)
      ]
    ]

-- What a move from one phase to another adds to a count.
abbrev pub delta : Bool → Bool → ℤ
delta false true = pos 1
delta true false = negsuc 0
delta false false = pos 0
delta true true = pos 0

pub clamp-delta :
    (v w : Bool) (n n' : ℕ)
    → n < limit
    → n' < limit
    → n' + one_if v ≡ n + one_if w
    → clamp (add (pos n) (delta v w)) ≡ pos n'
unfolding add wrap ◌+ℤ◌
clamp-delta false true n n' h k e = ground arith
clamp-delta true false n n' h k e = ground arith
clamp-delta false false n n' h k e = ground arith
clamp-delta true true n n' h k e = ground arith

-- The connection `j` takes the place of `k`, and its service's counts change by the difference.
module _ (stats : Dict ServiceConnectionStats) (ks : List Connection) (p : ℕ) (k j : Connection)
    (at_p : get_elem? ks p ≡ some k) (same : j.service ≡ k.service) (few : length ks < limit) where
  moved_number :
      (f : Phase → Bool)
      → number_of f k.service.name (set ks p j) + one_if (f k.phase)
        ≡ number_of f k.service.name ks + one_if (f j.phase)
  moved_number f =
      let e : weight f k.service.name j ≡ one_if (f j.phase) = rw (same, str_eq_self) in
      let d : weight f k.service.name k ≡ one_if (f k.phase) = rw str_eq_self in
      omega (arith, e, d, number_of-set f k.service.name ks p k j at_p)

  moved_other :
      (f : Phase → Bool) (n : String)
      → str_eq k.service.name n ≡ false
      → number_of f n (set ks p j) ≡ number_of f n ks
  moved_other f n e =
      let d : weight f n k ≡ 0 = rw e in
      let c : weight f n j ≡ 0 = rw (same, e) in
      omega (arith, d, c, number_of-set f n ks p k j at_p)

  abbrev pub moved_stats : Dict ServiceConnectionStats
  moved_stats =
      insert k.service.name
        (changed_stats (lookup_or no_connections k.service.name stats)
          (delta (is_proxied k.phase) (is_proxied j.phase))
          (delta (is_waiting k.phase) (is_waiting j.phase)))
        stats

  moved_clamp :
      (f : Phase → Bool)
      → clamp (add (pos (number_of f k.service.name ks)) (delta (f k.phase) (f j.phase)))
        ≡ pos (number_of f k.service.name (set ks p j))
  moved_clamp f =
      clamp-delta (f k.phase) (f j.phase) (number_of f k.service.name ks)
        (number_of f k.service.name (set ks p j)) (omega (arith, number_of-le f k.service.name ks))
        (omega (arith, number_of-le f k.service.name (set ks p j), length-set ks p j))
        (moved_number f)

  pub moved-IsCounted : IsCounted stats ks → IsCounted moved_stats (set ks p j)
  moved-IsCounted h n = elim (Bool-cases (str_eq k.service.name n)) [
    | inl e ↦
        subst
          (λ n. lookup_or no_connections n moved_stats ≡ record {
            proxied = pos (number_of is_proxied n (set ks p j));
            waiting = pos (number_of is_waiting n (set ks p j));
          })
          ((eq_iff k.service.name n).0 e)
          (rw (
            lookup_or-insert,
            str_eq_self,
            h k.service.name,
            moved_clamp is_proxied,
            moved_clamp is_waiting,
          ))
    | inr e ↦ rw (lookup_or-insert, e, moved_other is_proxied n e, moved_other is_waiting n e) (h n)
  ]
