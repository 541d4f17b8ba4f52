-- ===== src/Server.antt =====
-- uvloop/server.pyx: the server object behind `create_server()`: its listening sockets, the number
-- of its open connections, and the coroutines that wait for it to close.
mod Waiting
mod Histories
mod Tests
use uvloop.Prelude.{
  ℕ, zero, suc, ◌+◌, ◌-◌, Bool, true, false, not, ◌&&◌, ◌||◌, List, [], ◌∷◌, ◌++◌, Option, none,
  some, ◌==◌, is_some,
}
use uvloop.Errors.{Exception, attribute_error, assertion_error, runtime_error, type_error}
use uvloop.Python.{
  M, Outcome, ok, raise, ◌>>=◌, ◌>>◌, pure, throw, modify, branch, whenever, finally, get_state,
}

-- The listening sockets (`UVStreamServer`) and the futures, by number. `W` is their state and that
-- of the loop.
pub record Sockets (W : Type 0) : Type 0 where
  pub listen : ℕ → W → Outcome (Unit {0}) × W
  pub close : ℕ → W → Outcome (Unit {0}) × W
  -- `done()` of a future that the server gave no result.
  pub is_done : ℕ → W → Bool

pub record Server (W : Type 0) : Type 0 where
  pub world : W
  -- `_servers` and `_waiters`, `none` for `None`.
  pub servers : Option (List ℕ)
  pub waiters : Option (List ℕ)
  pub active_count : ℕ
  pub serving : Bool
  pub serving_forever : Bool
  -- Membership in `loop._servers`.
  pub referenced : Bool
  -- The waiters that got a result.
  pub woken : List ℕ

-- `__cinit__`
unfoldable pub new_server : {W : Type 0} → W → Server W
new_server w = record {
  world = w;
  servers = some [];
  waiters = some [];
  active_count = 0;
  serving = false;
  serving_forever = false;
  referenced = false;
  woken = [];
}

module _ {W : Type 0} (sockets : Sockets W) where
  abbrev pub on_socket : (ℕ → W → Outcome (Unit {0}) × W) → ℕ → M (Server W) (Unit {0})
  on_socket f n s = ((f n s.world).0, record s { world = (f n s.world).1 })

  unfoldable pub each : (ℕ → M (Server W) (Unit {0})) → List ℕ → M (Server W) (Unit {0})
  each f [] = pure tt
  each f (n ∷ ns) = do f n; each f ns

  -- `self._servers.append(srv)`; a method of `None` is an error.
  unfoldable pub add_server : ℕ → M (Server W) (Unit {0})
  add_server srv s = elim s.servers [
    | none ↦ (raise attribute_error, s)
    | some l ↦ (ok tt, record s { servers = some (l ++ srv ∷ []) })
  ]

  unfoldable pub start_serving : M (Server W) (Unit {0})
  unfolding each
  start_serving s =
      branch s.serving (pure tt)
        (do
          modify (λ t. record t { serving = true })
          elim s.servers [ none ↦ throw type_error | some l ↦ each (on_socket sockets.listen) l ])
        s

  abbrev pub given : ℕ → List ℕ → Bool
  given n [] = false
  given n (m ∷ ms) = n == m || given n ms

  -- `done()`: a result makes the future done.
  abbrev pub done : ℕ → W → List ℕ → Bool
  done n w woken = sockets.is_done n w || given n woken

  wake : ℕ → M (Server W) (Unit {0})
  wake n s =
      branch (done n s.world s.woken) (pure tt)
        (modify (λ t. record t { woken = t.woken ++ n ∷ [] })) s

  -- `_wakeup`: to iterate over `None` is an error.
  unfoldable pub wakeup : M (Server W) (Unit {0})
  unfolding each wake
  wakeup s = elim s.waiters [
    | none ↦ (raise type_error, s)
    | some l ↦ each wake l (record s { waiters = none })
  ]

  unfoldable pub attach : M (Server W) (Unit {0})
  attach s =
      branch (is_some s.servers) (modify (λ t. record t { active_count = suc t.active_count }))
        (throw assertion_error) s

  unfoldable pub detach : M (Server W) (Unit {0})
  unfolding wakeup
  detach s =
      branch (s.active_count == 0) (throw assertion_error)
        (do
          modify (λ t. record t { active_count = t.active_count - 1 })
          whenever (s.active_count - 1 == 0 && not (is_some s.servers)) wakeup)
        s

  -- `wait_closed` up to its `await`: `none` if it returns at once, and the waiter otherwise.
  unfoldable pub wait_closed : ℕ → M (Server W) (Option ℕ)
  wait_closed waiter s = elim s.waiters [
    | none ↦ (ok none, s)
    | some l ↦
        branch (is_some s.servers)
          (do modify (λ t. record t { waiters = some (l ++ waiter ∷ []) }); pure (some waiter))
          (pure none) s
  ]

  unfoldable pub close : M (Server W) (Unit {0})
  unfolding each wakeup
  close s = elim s.servers [
    | none ↦ (ok tt, s)
    | some l ↦
        finally
          (do
            modify (λ t. record t { servers = none; serving = false })
            each (on_socket sockets.close) l
            t ← get_state
            whenever (t.active_count == 0) wakeup)
          (modify (λ t. record t { referenced = false })) s
  ]

  -- `serve_forever` up to its `await`.
  unfoldable pub serve_forever : M (Server W) (Unit {0})
  unfolding start_serving
  serve_forever s =
      branch s.serving_forever (throw runtime_error)
        (branch (is_some s.servers)
          (do start_serving; modify (λ t. record t { serving_forever = true }))
          (throw runtime_error))
        s

  -- `serve_forever` when its future is cancelled: it closes the server, waits with `waiter`, and
  -- forgets the future.
  unfoldable pub serve_forever_cancelled : ℕ → M (Server W) (Option ℕ)
  unfolding close wait_closed
  serve_forever_cancelled waiter =
      finally (do close; wait_closed waiter) (modify (λ t. record t { serving_forever = false }))

  -- `_ref` and `_unref`
  unfoldable pub set_reference : Bool → M (Server W) (Unit {0})
  set_reference b = modify (λ s. record s { referenced = b })
