-- ===== src/Server/Waiting.antt =====
-- uvloop/server.pyx: who waits for the server to close is woken, once, when the last connection is
-- gone.
use mathlib.Core.List.{append-nil, append_assoc}
use uvloop.Prelude.{
  ℕ, ◌-◌, true, false, ◌≡◌, ◌≢◌, refl, sym, ap, ◌∙◌, List, [], ◌∷◌, ◌++◌, none, some, ◌==◌, arith,
  if◌then◌else◌, Bool-cases, Option-cases, inl, inr, ==→eq,
}
use uvloop.Python.{Outcome, ok}
use uvloop.Server.{
  done, Sockets, Server, on_socket, each, add_server, start_serving, wake, wakeup, attach, detach,
  wait_closed, close,
}

-- Outside debug builds neither `listen` nor `_close` of a listening socket raises.
pub record Calm {W : Type 0} (sockets : Sockets W) : Type 0 where
  pub listens : (n : ℕ) (w : W) → (sockets.listen n w).0 ≡ ok tt
  pub closes : (n : ℕ) (w : W) → (sockets.close n w).0 ≡ ok tt

module _ {W : Type 0} (sockets : Sockets W) where
  -- The futures that are not done yet, in order, where those of `woken` got a result.
  abbrev pub pending : List ℕ → W → List ℕ → List ℕ
  pending [] w woken = []
  pending (n ∷ ns) w woken =
      if done sockets n w woken then pending ns w woken else n ∷ pending ns w (woken ++ n ∷ [])

  -- The waiters are gone exactly when the server is closed and has no connection.
  pub record Settled (s : Server W) : Type 0 where
    pub gone : s.waiters ≡ none → (s.servers ≡ none) × (s.active_count ≡ 0)
    pub settled : s.servers ≡ none → s.active_count ≡ 0 → s.waiters ≡ none

  each-wake :
      (l : List ℕ) (s : Server W)
      → each sockets (wake sockets) l s
        ≡ (ok tt, record s { woken = s.woken ++ pending l s.world s.woken })
  unfolding each wake
  each-wake [] s = ap (λ (x : List ℕ). (ok tt, record s { woken = x })) (sym (append-nil s.woken))
  each-wake (n ∷ l) s = elim (Bool-cases (done sockets n s.world s.woken)) [
    | inl e ↦ rw e (each-wake l s)
    | inr e ↦ rw e (
        each-wake l (record s { woken = s.woken ++ n ∷ [] })
        ∙ ap (λ (x : List ℕ). (ok tt, record s { woken = x }))
            (append_assoc s.woken (n ∷ []) (pending l s.world (s.woken ++ n ∷ []))))
  ]

  each_calm :
      (f : ℕ → W → Outcome (Unit {0}) × W)
      → ((n : ℕ) (w : W) → (f n w).0 ≡ ok tt)
      → (l : List ℕ) (s : Server W)
      → (w : W) × (each sockets (on_socket sockets f) l s ≡ (ok tt, record s { world = w }))
  unfolding each
  each_calm f calm [] s = (s.world, refl)
  each_calm f calm (n ∷ l) s =
      let (w, e) = each_calm f calm l (record s { world = (f n s.world).1 }) in
      (w, rw (calm n s.world) e)

  pub wakeup_lem :
      (s : Server W) (l : List ℕ)
      → s.waiters ≡ some l
      → wakeup sockets s
        ≡ (ok tt, record s { waiters = none; woken = s.woken ++ pending l s.world s.woken })
  unfolding wakeup
  wakeup_lem s l e = rw e (each-wake l (record s { waiters = none }))

  -- The state after `close()` with the waiters `l`, where the sockets were closed on the way to
  -- `w`.
  abbrev pub closed_at : Server W → W → List ℕ → Server W
  closed_at s w l =
      if s.active_count == 0
      then record s {
        world = w;
        servers = none;
        serving = false;
        referenced = false;
        waiters = none;
        woken = s.woken ++ pending l w s.woken;
      }
      else record s { world = w; servers = none; serving = false; referenced = false }

  module _ (calm : Calm sockets) where
    -- `close()` on an open server with waiters, whose sockets do not raise, never raises. It
    -- forgets the sockets, stops serving and leaves the loop's set of servers; if no connection is
    -- open, every waiter that is not done gets its result, once, and the list of waiters is gone.
    pub close_lem :
        (s : Server W) (l ws : List ℕ)
        → s.servers ≡ some l
        → s.waiters ≡ some ws
        → (w : W) × (close sockets s ≡ (ok tt, closed_at s w ws))
    unfolding close
    close_lem s l ws e f =
        let (w, g) =
          each_calm sockets.close calm.closes l (record s { servers = none; serving = false }) in
        (
          w,
          ground
              (arith, g, wakeup_lem (record s { world = w; servers = none; serving = false }) ws f),
        )

    closed_twice : (s : Server W) → Settled s → s.servers ≡ none → Settled (close sockets s).1
    unfolding close
    closed_twice s h e = rw (e, close) h

    pub close-Settled : (s : Server W) → Settled s → Settled (close sockets s).1
    close-Settled s h = elim (Option-cases s.servers) [
      | inl e ↦ closed_twice s h e
      | inr (l, e) ↦ elim (Option-cases s.waiters) [
        | inl f ↦ absurd (ground (arith, h.gone f))
        | inr (ws, f) ↦
            let (w, g) = close_lem s l ws e f in
            rw g (elim (Bool-cases (s.active_count == 0)) [
              | inl z ↦ rw z (record { gone = λ _. (refl, ==→eq _ _ z); settled = λ _ _. refl })
              | inr z ↦ rw z (record {
                gone = λ p. absurd (cc (sym f ∙ p));
                settled = λ _ p. absurd (ground arith);
              })
            ])
      ]
    ]

    pub detach-Settled : (s : Server W) → Settled s → Settled (detach sockets s).1
    unfolding detach
    detach-Settled s h = elim (Option-cases s.waiters) [
      | inl f ↦ ground (arith, h.gone f)
      | inr (ws, f) ↦
          ground
            (arith, wakeup_lem (record s { active_count = s.active_count - 1 }) ws f, h.settled)
    ]

    pub attach-Settled : (s : Server W) → Settled s → Settled (attach sockets s).1
    unfolding attach
    attach-Settled s h = ground arith

    pub add_server-Settled : (n : ℕ) (s : Server W) → Settled s → Settled (add_server sockets n s).1
    unfolding add_server
    add_server-Settled n s h = ground arith

    pub wait_closed-Settled :
        (n : ℕ) (s : Server W) → Settled s → Settled (wait_closed sockets n s).1
    unfolding wait_closed
    wait_closed-Settled n s h = ground arith

    pub start_serving-Settled : (s : Server W) → Settled s → Settled (start_serving sockets s).1
    unfolding start_serving
    start_serving-Settled s h = elim (Option-cases s.servers) [
      | inl e ↦ ground arith
      | inr (l, e) ↦
          ground (arith, (each_calm sockets.listen calm.listens l (record s { serving = true })).1)
    ]

    -- If the sockets do not raise, and the waiters are gone exactly if the server is closed and has
    -- no connection, `close()` never raises.
    pub close_never_raises : (s : Server W) → Settled s → (close sockets s).0 ≡ ok tt
    unfolding close
    close_never_raises s h = elim (Option-cases s.servers) [
      | inl e ↦ rw (e, close)
      | inr (l, e) ↦ elim (Option-cases s.waiters) [
        | inl f ↦ absurd (ground (arith, h.gone f))
        | inr (ws, f) ↦ ap (λ r. r.0) (close_lem s l ws e f).1
      ]
    ]

    -- If the sockets do not raise, and the waiters are gone exactly if the server is closed and has
    -- no connection, `_detach` never raises while a connection is open.
    pub detach_never_raises :
        (s : Server W) → Settled s → s.active_count ≢ 0 → (detach sockets s).0 ≡ ok tt
    unfolding detach
    detach_never_raises s h n = elim (Option-cases s.waiters) [
      | inl f ↦ absurd (n (h.gone f).1)
      | inr (ws, f) ↦
          ground (arith, wakeup_lem (record s { active_count = s.active_count - 1 }) ws f)
    ]

    -- When the last connection of a closed server with waiters goes, `_detach` returns, every
    -- waiter that is not done gets its result, once, and the list of waiters is gone.
    pub detach_last :
        (s : Server W) (ws : List ℕ)
        → s.servers ≡ none
        → s.active_count ≡ 1
        → s.waiters ≡ some ws
        → detach sockets s ≡ (
          ok tt,
          record s {
            active_count = 0;
            waiters = none;
            woken = s.woken ++ pending ws s.world s.woken;
          },
        )
    unfolding detach
    detach_last s ws e n f =
        ground (arith, wakeup_lem (record s { active_count = s.active_count - 1 }) ws f)
