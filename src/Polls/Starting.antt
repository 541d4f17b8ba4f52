-- ===== src/Polls/Starting.antt =====
-- uvloop/handles/poll.pyx: starting to watch, which may end in `_fatal_error`.
use uvloop.Prelude.{ℕ, ◌≡◌, sym, ap, ◌∙◌, ◌⊎◌, inl, inr, Bool, false, Option, none, some, arith}
use mathlib.Core.Path.{subst}
use uvloop.Errors.{Exception, UvError, runtime_error}
use uvloop.Python.{M, ◌>>=◌, ◌>>◌, throw, get_state}
use uvloop.Python.Frames.{
  Keeps, pure-Keeps, get_state-Keeps, catch-Keeps, bind-Keeps, after_state, Post, Post-of,
  branch-Post,
}
use uvloop.Polls.{PollEnv, Polls, set_poll, close}
use uvloop.Polls.Methods.{run_guarded, fatal_error, started, poll_start}
use uvloop.Polls.Watched.{
  with_one, Watched, watch, Watched-closed, set_poll-watch, close-Watched, close_lem,
}

module _ {W : Type 0} (env : PollEnv W) (run_handle : ℕ → M (Polls W) (Unit {0}))
    (handle_exception : Exception → M (Polls W) (Unit {0}))
    (runs : (x : ℕ → Bool) (h : ℕ) → Keeps (watch x) (run_handle h))
    (reports : (x : ℕ → Bool) (e : Exception) → Keeps (watch x) (handle_exception e)) where
  pub run_guarded-watch :
      (x : ℕ → Bool) (o : Option ℕ)
      → Keeps (watch x) (run_guarded env run_handle handle_exception o)
  unfolding run_guarded
  run_guarded-watch x none = pure-Keeps (watch x) tt
  run_guarded-watch x (some h) = catch-Keeps (watch x) (runs x h) (reports x)

  -- The handles that `fatal_error` runs.
  runs_both : ℕ → M (Polls W) (Unit {0})
  runs_both i = do
    s ← get_state
    run_guarded env run_handle handle_exception (s.objects i).reading_handle
    set_poll i (λ p. record p { reading_handle = none })
    t ← get_state
    run_guarded env run_handle handle_exception (t.objects i).writing_handle
    set_poll i (λ p. record p { writing_handle = none })

  runs_both-watch : (i : ℕ) (x : ℕ → Bool) → Keeps (watch (with_one i x)) (runs_both i)
  unfolding runs_both
  runs_both-watch i x =
      let F = watch (with_one i x) in
      bind-Keeps F (get_state-Keeps F) (λ s.
        bind-Keeps F (run_guarded-watch (with_one i x) (s.objects i).reading_handle) (λ _.
          bind-Keeps F (set_poll-watch i x (λ p. record p { reading_handle = none })) (λ _.
            bind-Keeps F (get_state-Keeps F) (λ t.
              bind-Keeps F (run_guarded-watch (with_one i x) (t.objects i).writing_handle)
                (λ _. set_poll-watch i x (λ p. record p { writing_handle = none }))))))

  abbrev fatal : ℕ → M (Polls W) (Unit {0})
  fatal = fatal_error env run_handle handle_exception

  fatal_state : (i : ℕ) (s : Polls W) → (fatal i s).1 ≡ (close i (runs_both i s).1).1
  unfolding fatal_error runs_both
  fatal_state i s = after_state (runs_both i s) (close i)

  pub fatal-Watched :
      (i : ℕ) (x : ℕ → Bool) (s : Polls W) → Watched (with_one i x) s → Watched x (fatal i s).1
  fatal-Watched i x s w =
      subst (Watched x) (sym (fatal_state i s))
        (close-Watched i x (runs_both i s).1 ((runs_both-watch i x).keeps s w))

  pub fatal_closes : (i : ℕ) (s : Polls W) → ((fatal i s).1.objects i).alive ≡ false
  fatal_closes i s = ap (λ t. (t.objects i).alive) (fatal_state i s) ∙ close_lem i (runs_both i s).1

  -- The `UVPoll` is closed, or is watched for `r` and `w`, with the handles that it had.
  abbrev pub Started : ℕ → Bool → Bool → (ℕ → Bool) → Polls W → Polls W → Type 0
  Started i r w x s t =
      (Watched x t × ((t.objects i).alive ≡ false))
      ⊎ (Watched (with_one i x) t
          × (t.objects i ≡ record (s.objects i) { readable = r; writable = w }))

  started_lem :
      (i : ℕ) (r w : Bool) (x : ℕ → Bool) (s : Polls W) (o : Option UvError) (v : W)
      → Watched (with_one i x) s
      → Post
          (λ _ t. Started i r w x s t)
          (Watched x)
          (started env run_handle handle_exception i r w o (record s { world = v }))
  unfolding started
  started_lem i r w x s none v h = inr (
    (set_poll-watch i x (λ p. record p { readable = r; writable = w })).keeps
        (record s { world = v }) h,
    ground arith,
  )
  started_lem i r w x s (some err) v h =
      Post-of (λ u. Watched x u × ((u.objects i).alive ≡ false)) (λ _ t. Started i r w x s t)
        (Watched x) (fatal i (record s { world = v }))
        (fatal-Watched i x (record s { world = v }) h, fatal_closes i (record s { world = v }))
        (λ _ t q. inl q) (λ t q. q.0)

  pub poll_start_lem :
      (i : ℕ) (r w : Bool) (x : ℕ → Bool) (s : Polls W)
      → Watched (with_one i x) s
      → Post
          (λ _ t. Started i r w x s t)
          (Watched x)
          (poll_start env run_handle handle_exception i r w s)
  unfolding poll_start
  poll_start_lem i r w x s h =
      branch-Post (λ _ t. Started i r w x s t) (Watched x) (s.objects i).alive
        (λ t.
          let e = env.uv_poll_start (t.objects i).fd r w t.world in
          started env run_handle handle_exception i r w e.0 (record t { world = e.1 }))
        (throw runtime_error) s
        (λ _.
          let e = env.uv_poll_start (s.objects i).fd r w s.world in started_lem i r w x s e.0 e.1 h)
        (λ d. Watched-closed i x s h (λ a. absurd (cc (d, a))))
