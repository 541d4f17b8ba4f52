-- ===== src/Polls/Runs.antt =====
-- uvloop/handles/poll.pyx: runs of the loop's readers and writers.
use uvloop.Prelude.{ℕ, zero, suc, ◌≡◌, refl, Bool, true, false, not, List, [], ◌∷◌, ◌++◌, Option}
use uvloop.Errors.{Exception, UvError}
use uvloop.Python.{M, ◌>>=◌, ◌>>◌, pure, modify, whenever}
use uvloop.Python.Frames.{Keeps, Keeps-of, pure-Keeps, branch-Keeps, branch_of-Keeps, bind-Keeps}
use uvloop.Polls.{PollAction, PollProgram, PollEnv, Polls, close}
use uvloop.Polls.Methods.{act, on_uvpoll_event, nested, run_handle, handle_exception}
use uvloop.Polls.Kept.{modify-same}
use uvloop.Polls.Watched.{Matches, Watched, watch, same-watch, Watched-with_one, close-Watched}
use uvloop.Polls.Acting.{act-watch, perform-watch, on_uvpoll_event-watch}

-- What happens: user code calls a method of the loop, or libuv calls back for a `UVPoll` that is
-- not closed; or the loop is closed.
pub data PollEvent : Type 0 where
  acts : PollAction → PollEvent
  fires : ℕ → Option UvError → Bool → Bool → PollEvent
  closes : PollEvent

module _ {W : Type 0} (env : PollEnv W) (depth : ℕ) where
  -- What `_close` of the loop does to `_polls`.
  unfoldable pub close_each : List (ℕ × ℕ) → M (Polls W) (Unit {0})
  close_each [] = pure tt
  close_each ((fd, i) ∷ d) = do close i; close_each d

  unfoldable pub close_polls : M (Polls W) (Unit {0})
  unfolding close_each
  close_polls s =
      whenever (not s.closed)
        (do
          modify (λ t. record t { closed = true })
          close_each s.polls
          modify (λ t. record t { polls = [] }))
        s

  unfoldable pub react : PollEvent → M (Polls W) (Unit {0})
  unfolding close_polls
  react (acts action) s =
      (do _ ← act env (run_handle env depth) (handle_exception env depth) action; pure tt) s
  react (fires i o r w) s =
      whenever (s.objects i).alive
        (on_uvpoll_event env (run_handle env depth) (handle_exception env depth) i o r w) s
  react closes s = close_polls s

  unfoldable pub run : Polls W → List PollEvent → Polls W
  unfolding react
  run s [] = s
  run s (e ∷ es) = run (react e s).1 es

module _ {W : Type 0} (env : PollEnv W) where
  nested-watch :
      (run : ℕ → M (Polls W) (Unit {0})) (report : Exception → M (Polls W) (Unit {0}))
      (f : W → PollProgram W) (x : ℕ → Bool)
      → ((y : ℕ → Bool) (h : ℕ) → Keeps (watch y) (run h))
      → ((y : ℕ → Bool) (e : Exception) → Keeps (watch y) (report e))
      → Keeps (watch x) (nested env run report f)
  unfolding nested
  nested-watch run report f x a b = record {
    keeps = λ s. (perform-watch env run report a b (f s.world) x).keeps s;
  }

  mutual
    unfolding run_handle

    run_handle-watch : (depth : ℕ) (x : ℕ → Bool) (h : ℕ) → Keeps (watch x) (run_handle env depth h)
    run_handle-watch zero x h = record { keeps = λ s w. w }
    run_handle-watch (suc depth) x h =
        branch_of-Keeps (watch x) (λ s. s.cancelled h) (pure-Keeps (watch x) tt)
          (bind-Keeps (watch x)
            (same-watch x (modify-same (λ t. record t { ran = t.ran ++ h ∷ [] }) (λ t. refl)))
            (λ _.
              nested-watch (run_handle env depth) (handle_exception env depth) (env.handle_code h) x
                (run_handle-watch depth) (handle_exception-watch depth)))

    handle_exception-watch :
        (depth : ℕ) (x : ℕ → Bool) (e : Exception) → Keeps (watch x) (handle_exception env depth e)
    handle_exception-watch zero x e = record { keeps = λ s w. w }
    handle_exception-watch (suc depth) x e = record {
      keeps =
          (nested-watch (run_handle env depth) (handle_exception env depth) (env.exception_code e) x
            (run_handle-watch depth) (handle_exception-watch depth)).keeps;
    }

module _ {W : Type 0} (env : PollEnv W) (depth : ℕ) where
  close_each-watch : (d : List (ℕ × ℕ)) (x : ℕ → Bool) → Keeps (watch x) (close_each env depth d)
  unfolding close_each
  close_each-watch [] x = pure-Keeps (watch x) tt
  close_each-watch ((fd, i) ∷ d) x =
      bind-Keeps (watch x)
        (Keeps-of (watch x) (close i) (λ t w. close-Watched i x t (Watched-with_one i x t w)))
        (λ _. close_each-watch d x)

  close_polls-watch : (x : ℕ → Bool) → Keeps (watch x) (close_polls env depth)
  unfolding close_polls
  close_polls-watch x = record {
    keeps = λ s.
        (branch-Keeps (watch x) (not s.closed)
            (bind-Keeps (watch x)
              (same-watch x (modify-same (λ t. record t { closed = true }) (λ t. refl)))
              (λ _.
                bind-Keeps (watch x) (close_each-watch s.polls x)
                  (λ _. same-watch x (modify-same (λ t. record t { polls = [] }) (λ t. refl)))))
            (pure-Keeps (watch x) tt)).keeps
          s;
  }

  react-watch : (e : PollEvent) (x : ℕ → Bool) → Keeps (watch x) (react env depth e)
  unfolding react
  react-watch (acts action) x =
      bind-Keeps (watch x)
        (act-watch env (run_handle env depth) (handle_exception env depth)
          (run_handle-watch env depth) (handle_exception-watch env depth) action x)
        (λ _. pure-Keeps (watch x) tt)
  react-watch (fires i o r w) x =
      branch_of-Keeps (watch x) (λ s. (s.objects i).alive)
        (on_uvpoll_event-watch env (run_handle env depth) (handle_exception env depth)
          (run_handle-watch env depth) (handle_exception-watch env depth) i o r w x)
        (pure-Keeps (watch x) tt)
  react-watch closes x = record { keeps = (close_polls-watch x).keeps }

  run-watch :
      (s : Polls W) (es : List PollEvent) (x : ℕ → Bool)
      → Watched x s
      → Watched x (run env depth s es)
  unfolding run
  run-watch s [] x w = w
  run-watch s (e ∷ es) x w = run-watch (react env depth e s).1 es x ((react-watch e x).keeps s w)

  -- If libuv watches each `UVPoll` that is not closed for reading exactly if it has a handle for
  -- reading, and for writing exactly if it has one for writing, then so it is after any sequence of
  -- events, whatever the handles do when they run, how deep they nest, and whichever calls of libuv
  -- fail.
  pub run-Matches :
      (s : Polls W) (es : List PollEvent)
      → ((j : ℕ) → (s.objects j).alive ≡ true → Matches (s.objects j))
      → (j : ℕ) → ((run env depth s es).objects j).alive ≡ true
      → Matches ((run env depth s es).objects j)
  run-Matches s es h j a = run-watch s es (λ _. false) (λ k _. h k) j refl a
