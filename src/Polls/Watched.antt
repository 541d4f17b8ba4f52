-- ===== src/Polls/Watched.antt =====
-- uvloop/handles/poll.pyx: what a `UVPoll` is watched for, whatever handles do when they run.
use uvloop.Prelude.{
  ℕ, ◌≡◌, refl, sym, ◌∙◌, inl, inr, Bool, true, false, ◌||◌, Option, none, some, ◌==◌, is_some,
  arith, Bool-cases, ==→eq,
}
use mathlib.Core.Path.{subst}
use uvloop.Python.{M, Outcome, ok, raise, bind, whenever}
use uvloop.Python.Frames.{
  Frame, Keeps, Keeps-map, preserves, pure-Keeps, get_state-Keeps, branch-Keeps, branch_of-Keeps,
  bind-Keeps,
}
use uvloop.Polls.{Poll, Polls, is_active, set_poll, cancel, poll_stop, stop, close}

-- libuv watches for what the `UVPoll` has a handle for.
abbrev pub Matches : Poll → Type 0
Matches p = (p.readable ≡ is_some p.reading_handle) × (p.writable ≡ is_some p.writing_handle)

-- A set of `UVPoll`s, with one more.
abbrev pub with_one : ℕ → (ℕ → Bool) → ℕ → Bool
with_one i x j = j == i || x j

module _ {W : Type 0} where
  -- So it is for every `UVPoll` that is not closed and not in the set `x`.
  abbrev pub Watched : (ℕ → Bool) → Polls W → Type 0
  Watched x s = (j : ℕ) → x j ≡ false → (s.objects j).alive ≡ true → Matches (s.objects j)

  abbrev pub watch : (ℕ → Bool) → Frame (Polls W)
  watch x = preserves (Watched x)

  pub Watched-with_one :
      (i : ℕ) (x : ℕ → Bool) (s : Polls W) → Watched x s → Watched (with_one i x) s
  Watched-with_one i x s w j e a = w j (ground (arith, e)) a

  -- Where the one more is closed, or as it should be.
  pub Watched-closed :
      (i : ℕ) (x : ℕ → Bool) (s : Polls W)
      → Watched (with_one i x) s
      → ((s.objects i).alive ≡ true → Matches (s.objects i))
      → Watched x s
  Watched-closed i x s w h j e a = elim (Bool-cases (j == i)) [
    | inl y ↦
        subst (λ m. (s.objects m).alive ≡ true → Matches (s.objects m)) (sym (==→eq j i y)) h a
    | inr n ↦ w j (ground (arith, n, e)) a
  ]

  -- A method that changes no `UVPoll`.
  abbrev pub same : Frame (Polls W)
  same = record { Rel = λ s t. t.objects ≡ s.objects; stay = λ s. refl; both = λ s t u p q. q ∙ p }

  pub same-watch :
      {A : Type 0} (x : ℕ → Bool) {m : M (Polls W) A} → Keeps same m → Keeps (watch x) m
  same-watch x h =
      Keeps-map same (watch x)
        (λ s t e w.
          subst (λ o. (j : ℕ) → x j ≡ false → (o j).alive ≡ true → Matches (o j)) (sym e) w)
        h

  pub set_poll-watch :
      (i : ℕ) (x : ℕ → Bool) (f : Poll → Poll) → Keeps (watch (with_one i x)) (set_poll {W = W} i f)
  set_poll-watch i x f = record { keeps = λ s w j e a. ground (arith, e, a, w j) }

  pub cancel-same : (o : Option ℕ) → Keeps same (cancel {W = W} o)
  unfolding cancel
  cancel-same none = pure-Keeps same tt
  cancel-same (some h) = record { keeps = λ s. refl }

  poll_stop-watch : (i : ℕ) (x : ℕ → Bool) → Keeps (watch (with_one i x)) (poll_stop {W = W} i)
  unfolding poll_stop
  poll_stop-watch i x =
      branch_of-Keeps (watch (with_one i x)) (λ s. (s.objects i).alive)
        (set_poll-watch i x (λ p. record p { readable = false; writable = false }))
        (pure-Keeps (watch (with_one i x)) tt)

  stop-watch : (i : ℕ) (x : ℕ → Bool) → Keeps (watch (with_one i x)) (stop {W = W} i)
  unfolding stop
  stop-watch i x =
      let F = watch (with_one i x) in
      bind-Keeps F (get_state-Keeps F) (λ s.
        bind-Keeps F (same-watch (with_one i x) (cancel-same (s.objects i).reading_handle)) (λ _.
          bind-Keeps F (set_poll-watch i x (λ p. record p { reading_handle = none })) (λ _.
            bind-Keeps F (get_state-Keeps F) (λ t.
              bind-Keeps F (same-watch (with_one i x) (cancel-same (t.objects i).writing_handle))
                (λ _.
                  bind-Keeps F (set_poll-watch i x (λ p. record p { writing_handle = none }))
                    (λ _. poll_stop-watch i x))))))

  -- After `stop` there is no handle, and nothing is watched for.
  stop_lem :
      (i : ℕ) (s : Polls W)
      → ((stop i s).1.objects i).alive ≡ true
      → Matches ((stop i s).1.objects i)
  unfolding stop cancel poll_stop
  stop_lem i s a = ground (arith, a)

  pub stop-Watched :
      (i : ℕ) (x : ℕ → Bool) (s : Polls W) → Watched (with_one i x) s → Watched x (stop i s).1
  stop-Watched i x s w = Watched-closed i x (stop i s).1 ((stop-watch i x).keeps s w) (stop_lem i s)

  -- `close` leaves the `UVPoll` closed.
  close-watch : (i : ℕ) (x : ℕ → Bool) → Keeps (watch (with_one i x)) (close {W = W} i)
  unfolding close
  close-watch i x =
      let F = watch (with_one i x) in
      bind-Keeps F (get_state-Keeps F) (λ s.
        bind-Keeps F (branch-Keeps F (is_active (s.objects i)) (stop-watch i x) (pure-Keeps F tt))
          (λ _.
            set_poll-watch i x
              (λ p. record p { alive = false; readable = false; writable = false })))

  stop_returns : (i : ℕ) (s : Polls W) → (stop i s).0 ≡ ok tt
  unfolding stop cancel poll_stop
  stop_returns i s = ground arith

  abbrev kill : ℕ → M (Polls W) (Unit {0})
  kill i = set_poll i (λ p. record p { alive = false; readable = false; writable = false })

  then_killed :
      (i : ℕ) (r : Outcome (Unit {0}) × Polls W)
      → r.0 ≡ ok tt
      → ((bind r (λ _. kill i)).1.objects i).alive ≡ false
  then_killed i (ok u, t) e = ground arith
  then_killed i (raise x, t) e = absurd (cc e)

  stopped : (i : ℕ) (b : Bool) (s : Polls W) → (whenever b (stop i) s).0 ≡ ok tt
  stopped i true s = stop_returns i s
  stopped i false s = refl

  pub close_lem : (i : ℕ) (s : Polls W) → ((close i s).1.objects i).alive ≡ false
  unfolding close
  close_lem i s =
      then_killed i (whenever (is_active (s.objects i)) (stop i) s)
        (stopped i (is_active (s.objects i)) s)

  pub close-Watched :
      (i : ℕ) (x : ℕ → Bool) (s : Polls W) → Watched (with_one i x) s → Watched x (close i s).1
  close-Watched i x s w =
      Watched-closed i x (close i s).1 ((close-watch i x).keeps s w)
        (λ a. absurd (cc (close_lem i s, a)))
