-- ===== src/TestServer/MainPort/Counter.antt =====
-- test-server/main.go: mainPortConnections is the number of the connections that are open.
use large_model_proxy.Base.{
  ℕ, zero, suc, ◌+◌, ◌≡◌, refl, ap, ◌∙◌, Bool, true, false, List, [], ◌∷◌, ◌++◌, Option, some, ℤ,
  pos, add, sub, wrap, wrap_add_left, wrap_sub_left, ◌+ℤ◌, ◌-ℤ◌, +ℤ_parts, -ℤ_parts, eq_of_parts,
  arith, All, All-append, one_if, Option-cases, Bool-cases, inl, inr, get_elem?, subst,
}
use large_model_proxy.Services.Heap.{set}
use large_model_proxy.TestServer.MainPort.{
  Served, Server, Listener, not_yet, accepting, Action, listens, app_starts, receives, handles,
  watches, received, at, put, listen_on_main_port, listener_step, run,
}
use large_model_proxy.TestServer.MainPort.Threads.{
  is_open, IsSound, IsHonest, Advanced, handler_step-Advanced, watcher_step-Advanced,
}

unfoldable pub number_open : List Served → ℕ
number_open [] = 0
number_open (k ∷ ks) = one_if (is_open k) + number_open ks

number_open-append :
    (ks : List Served) (k : Served)
    → number_open (ks ++ k ∷ []) ≡ number_open ks + one_if (is_open k)
unfolding number_open
number_open-append [] k = omega arith
number_open-append (x ∷ ks) k = omega (arith, number_open-append ks k)

number_open-set :
    (ks : List Served) (p : ℕ) (k j : Served)
    → get_elem? ks p ≡ some k
    → number_open (set ks p j) + one_if (is_open k) ≡ number_open ks + one_if (is_open j)
unfolding number_open
number_open-set [] p k j h = ground (arith, h)
number_open-set (x ∷ ks) zero k j h = let e : x ≡ k = cc h in rw e (omega arith)
number_open-set (x ∷ ks) (suc p) k j h = omega (arith, number_open-set ks p k j h)

module _ (P : Served → Type 0) where
  All-get : (ks : List Served) (p : ℕ) (k : Served) → All P ks → get_elem? ks p ≡ some k → P k
  All-get [] p k h e = cc
  All-get (x ∷ ks) zero k h e = let q : x ≡ k = cc e in subst P q h.0
  All-get (x ∷ ks) (suc p) k h e = All-get ks p k h.1 e

  All-set : (ks : List Served) (p : ℕ) (j : Served) → All P ks → P j → All P (set ks p j)
  All-set [] p j h k = tt
  All-set (x ∷ ks) zero j h k = (k, h.1)
  All-set (x ∷ ks) (suc p) j h k = (h.0, All-set ks p j h.1 k)

pub All-map :
    (P Q : Served → Type 0) (ks : List Served) → ((k : Served) → P k → Q k) → All P ks → All Q ks
All-map P Q [] f h = tt
All-map P Q (k ∷ ks) f h = (f k h.0, All-map P Q ks f h.1)

-- The count is that of the open connections, as a 64-bit word, and every connection is sound.
pub record Inv (s : Server) : Type 0 where
  pub counted : s.main_port_connections ≡ wrap (pos (number_open s.connections))
  pub sound : All IsSound s.connections
  pub honest : All (IsHonest s.app_started) s.connections

counted_more : (n : ℕ) → add (wrap (pos n)) (pos 1) ≡ wrap (pos (n + 1))
unfolding add
counted_more n =
    wrap_add_left (pos n) (pos 1)
    ∙ ap wrap (eq_of_parts (pos n +ℤ pos 1) (pos (n + 1)) (omega (arith, +ℤ_parts (pos n) (pos 1))))

counted_less : (n : ℕ) → sub (wrap (pos (n + 1))) (pos 1) ≡ wrap (pos n)
unfolding sub
counted_less n =
    wrap_sub_left (pos (n + 1)) (pos 1)
    ∙ ap wrap
        (eq_of_parts (pos (n + 1) -ℤ pos 1) (pos n) (omega (arith, -ℤ_parts (pos (n + 1)) (pos 1))))

Advanced-counted :
    (ks : List Served) (p : ℕ) (k j : Served) (n m : ℤ) (started : Bool)
    → get_elem? ks p ≡ some k
    → Advanced started k n j m
    → n ≡ wrap (pos (number_open ks))
    → m ≡ wrap (pos (number_open (set ks p j)))
Advanced-counted ks p k j n m started at_p a h =
    let moved = number_open-set ks p k j at_p in
    elim a.counted [
      | inl (same, e) ↦
          let q : number_open (set ks p j) ≡ number_open ks = omega (arith, rw same at moved) in
          rw (e, h, q)
      | inr (was, is, e) ↦
          let q : number_open ks ≡ number_open (set ks p j) + 1 =
            omega (arith, rw (was, is) at moved) in
          rw (e, h, q) (counted_less (number_open (set ks p j)))
    ]

at-Inv :
    (s t : Server) (p : ℕ) (f : Served → Option (Served × ℤ))
    → Inv s
    → ((k j : Served) (m : ℤ)
        → IsSound k
        → IsHonest s.app_started k
        → f k ≡ some (j, m)
        → Advanced s.app_started k s.main_port_connections j m)
    → at s p f ≡ some t
    → Inv t
unfolding at put
at-Inv s t p f v advance h = elim (Option-cases (get_elem? s.connections p)) [
  | inl e ↦ ground (arith, h, e)
  | inr (k, e) ↦ elim (Option-cases (f k)) [
    | inl g ↦ ground (arith, h, e, g)
    | inr ((j, m), g) ↦
        let a =
          advance k j m (All-get IsSound s.connections p k v.sound e)
            (All-get (IsHonest s.app_started) s.connections p k v.honest e) g in
        let q : t ≡ record s { main_port_connections = m; connections = set s.connections p j } =
          ground (arith, h, e, g) in
        rw q (record {
          counted =
              Advanced-counted s.connections p k j s.main_port_connections m s.app_started e a
                v.counted;
          sound = All-set IsSound s.connections p j v.sound a.sound;
          honest = All-set (IsHonest s.app_started) s.connections p j v.honest a.honest;
        })
  ]
]

received-IsSound : IsSound received
received-IsSound = ground arith

-- The state of a server that has started says no less of its connections.
started-IsHonest :
    (s t : Bool) (ks : List Served)
    → (s ≡ true → t ≡ true)
    → All (IsHonest s) ks
    → All (IsHonest t) ks
started-IsHonest s t ks f h =
    All-map (IsHonest s) (IsHonest t) ks (λ k g. ((λ e. f (g.0 e)), (λ e. f (g.1 e)))) h

started-Inv :
    (s t : Server)
    → t.main_port_connections ≡ s.main_port_connections
    → t.connections ≡ s.connections
    → (s.app_started ≡ true → t.app_started ≡ true)
    → Inv s
    → Inv t
started-Inv s t n ks f v = record {
  counted = rw (n, ks) v.counted;
  sound = rw ks v.sound;
  honest = rw ks (started-IsHonest s.app_started t.app_started s.connections f v.honest);
}

listener_step-Inv :
    (s t : Server) (l : Listener) (a : Action) → Inv s → listener_step s l a ≡ some t → Inv t
unfolding listener_step listen_on_main_port
listener_step-Inv s t not_yet (listens startup_duration bound) v h =
    let q : t ≡ listen_on_main_port startup_duration bound s = cc in
    started-Inv s t (rw q refl) (rw q refl) (λ e. rw (q, e) (ground arith)) v
listener_step-Inv s t accepting app_starts v h = elim (Bool-cases s.timer) [
  | inl e ↦
      let q : t ≡ record s { timer = false; app_started = true } = ground (arith, h, e) in
      started-Inv s t (rw q refl) (rw q refl) (λ _. rw q refl) v
  | inr e ↦ ground (arith, h, e)
]
listener_step-Inv s t accepting receives v h =
    let q : t ≡ record s {
      main_port_connections = add s.main_port_connections (pos 1);
      connections = s.connections ++ received ∷ [];
    } =
      cc in
    rw q (record {
      counted =
          rw (v.counted, number_open-append s.connections received)
            (counted_more (number_open s.connections));
      sound = All-append IsSound s.connections (received ∷ []) v.sound (received-IsSound, tt);
      honest =
          All-append (IsHonest s.app_started) s.connections (received ∷ []) v.honest
            (ground arith, tt);
    })
listener_step-Inv s t accepting (handles p written) v h =
    at-Inv s t p _ v
      (λ k j m. handler_step-Advanced s.app_started s.main_port_connections k j m written k.handler)
      h
listener_step-Inv s t accepting (watches p) v h =
    at-Inv s t p _ v
      (λ k j m. watcher_step-Advanced s.app_started s.main_port_connections k j m k.watcher) h
listener_step-Inv s t _ _ v h = cc

pub run-Inv : (s : Server) (schedule : List Action) → Inv s → Inv (run s schedule)
unfolding run
run-Inv s [] v = v
run-Inv s (a ∷ rest) v = elim (Option-cases (listener_step s s.listener a)) [
  | inl e ↦ rw (e, run) (run-Inv s rest v)
  | inr (t, e) ↦ rw (e, run) (run-Inv t rest (listener_step-Inv s t s.listener a v e))
]
