-- ===== src/Loop/Order.antt =====
-- uvloop/loop.pyx: a round of `_on_idle` takes the handles that waited when it began, in order.
use mathlib.Core.List.{append-nil, append_assoc}
use mathlib.Core.Path.{subst}
use uvloop.Prelude.{
  ℕ, zero, suc, ◌≤◌, ◌<◌, ◌≡◌, refl, sym, ap, ◌∙◌, ◌⊎◌, inl, inr, Bool, true, false, List, [], ◌∷◌,
  ◌++◌, length, take, drop, arith, drop-append_left, take-append_left, take_all, length-append,
  All-map, All,
}
use uvloop.Python.{Outcome, ok, raise, bind, pure, branch}
use uvloop.Loop.State.{Env, Loop}
use uvloop.Loop.Rounds.{run_ready}
use uvloop.Loop.Grow.{Grows}
use uvloop.Loop.Served.{Served, Turn, Took, Turned, turn, turn_lem, taken_out, run_one_lem}

module _ {W : Type 0} (env : Env W) where
  -- How a loop over `ntodo` handles ends that took `k`.
  abbrev pub Ended : ℕ → ℕ → Outcome Bool × Loop W → Type 0
  Ended ntodo k r = ((r.0 ≡ ok true) × (k ≡ ntodo)) ⊎ ((r.0 ≡ ok false) × (r.1.stopping ≡ true))

  abbrev pub Result : ℕ → Loop W → Outcome Bool × Loop W → Type 0
  Result ntodo s r = (k : ℕ) × ((k ≤ ntodo) × Took env k s r.1 × Ended ntodo k r)

  abbrev Known : ℕ → Loop W → Type 0
  Known ntodo s = All (λ n. n < s.next_handle) (take ntodo s.ready)

  invoked_lem :
      (s : Loop W) (n : ℕ) (rest : List ℕ) (r : Outcome Bool × Loop W)
      → s.ready ≡ n ∷ rest
      → Turned env n (taken_out env s n rest) r
      → Turn env n s r.1
  invoked_lem s n rest r e (a, g, v) = record { rest = rest; first = e; turn = v }

  -- One more handle in front.
  Took-one :
      (s t : Loop W) (n : ℕ) (rest : List ℕ)
      → s.ready ≡ n ∷ rest
      → s.idle_running ≡ true
      → Grows (taken_out env s n rest) t
      → Turn env n s t
      → Took env 1 s t
  Took-one s t n rest e i g v = record {
    added = g.added;
    ready = rw e g.ready;
    appended = g.appended;
    popped = rw e g.popped;
    idle = g.idle i;
    more = g.more;
    ran = g.ran;
    next = g.next;
    cancelled = g.cancelled;
    served = subst (λ x. Served env (take 1 x) s t) (sym e) (t, (v, refl));
  }

  Took-more :
      (s t u : Loop W) (n : ℕ) (rest : List ℕ) (k : ℕ)
      → s.ready ≡ n ∷ rest
      → k ≤ length rest
      → n < s.next_handle
      → Grows (taken_out env s n rest) t
      → Turn env n s t
      → Took env k t u
      → Took env (suc k) s u
  Took-more s t u n rest k e l b g v w = record {
    added = g.added ++ w.added;
    ready =
        w.ready
        ∙ ap (λ x. x ++ w.added) still_left
        ∙ append_assoc (drop k rest) g.added w.added
        ∙ ap (λ x. drop (suc k) x ++ (g.added ++ w.added)) (sym e);
    appended =
        w.appended ∙ ap (λ l. l ++ w.added) g.appended ∙ append_assoc s.appended g.added w.added;
    popped =
        w.popped
        ∙ ap (λ x. t.popped ++ x) now_taken
        ∙ ap (λ x. x ++ take k rest) g.popped
        ∙ append_assoc s.popped (n ∷ []) (take k rest)
        ∙ ap (λ x. s.popped ++ take (suc k) x) (sym e);
    idle = w.idle;
    more = g.more ++ w.more;
    ran = w.ran ∙ ap (λ l. l ++ w.more) g.ran ∙ append_assoc s.ran g.more w.more;
    next = omega (arith, g.next, w.next);
    cancelled = λ m p c. w.cancelled m (omega (arith, g.next)) (g.cancelled m p c);
    served =
        subst (λ x. Served env (take (suc k) x) s u) (sym e)
          (t, (v, subst (λ x. Served env x t u) now_taken w.served));
  }
    where
      still_left : drop k t.ready ≡ drop k rest ++ g.added
      still_left = ap (drop k) g.ready ∙ drop-append_left k rest g.added l

      now_taken : take k t.ready ≡ take k rest
      now_taken = ap (take k) g.ready ∙ take-append_left k rest g.added l

  go_on : ℕ → Outcome Bool × Loop W → Outcome Bool × Loop W
  go_on ntodo r = bind r (λ goes_on. branch goes_on (run_ready env ntodo) (pure false))

  run_ready_step :
      (ntodo : ℕ) (s : Loop W) (n : ℕ) (rest : List ℕ)
      → s.ready ≡ n ∷ rest
      → run_ready env (suc ntodo) s ≡ go_on ntodo (turn env n (taken_out env s n rest))
  unfolding run_ready go_on
  run_ready_step ntodo s n rest e = ap (go_on ntodo) (run_one_lem env s n rest e)

  still-Known :
      (m : ℕ) (s t : Loop W) (n : ℕ) (rest : List ℕ)
      → m ≤ length rest
      → All (λ x. x < s.next_handle) (take m rest)
      → Grows (taken_out env s n rest) t
      → Known m t
  still-Known m s t n rest l h g =
      rw (g.ready, take-append_left m rest g.added l)
        (All-map (take m rest) (λ x p. omega (arith, p, g.next)) h)

  -- One handle, and then what the rest of the loop does.
  go_on_lem :
      (m : ℕ)
      → ((t : Loop W)
          → m ≤ length t.ready
          → t.idle_running ≡ true
          → Known m t
          → Result m t (run_ready env m t))
      → (s : Loop W) (n : ℕ) (rest : List ℕ) (r : Outcome Bool × Loop W) → s.ready ≡ n ∷ rest
      → m ≤ length rest
      → s.idle_running ≡ true
      → n < s.next_handle
      → All (λ x. x < s.next_handle) (take m rest)
      → Turned env n (taken_out env s n rest) r
      → Result (suc m) s (go_on m r)
  unfolding go_on
  go_on_lem m ih s n rest (ok true, t) e l i b h (a, g, v) =
      let (k, (kl, w, ends)) =
        ih t (omega (arith, l, ap length g.ready, length-append rest g.added)) (g.idle i)
          (still-Known m s t n rest l h g) in
      (
        suc k,
        (
          omega (arith, kl),
          Took-more s t (run_ready env m t).1 n rest k e (omega (arith, kl, l)) b g
              (invoked_lem s n rest (ok true, t) e (a, g, v)) w,
          elim ends [ inl (o, q) ↦ inl (o, ap suc q) | inr p ↦ inr p ],
        ),
      )
  go_on_lem m ih s n rest (ok false, t) e l i b h (inl a, g, v) = absurd (cc a)
  go_on_lem m ih s n rest (ok false, t) e l i b h (inr a, g, v) = (
    1,
    (
      omega arith,
      Took-one s t n rest e i g (invoked_lem s n rest (ok false, t) e (inr a, g, v)),
      inr a,
    ),
  )
  go_on_lem m ih s n rest (raise x, t) e l i b h (inl a, g, v) = absurd (cc a)
  go_on_lem m ih s n rest (raise x, t) e l i b h (inr a, g, v) = absurd (cc a.0)

  run_ready_from :
      (ntodo : ℕ) (s : Loop W) (l : List ℕ)
      → s.ready ≡ l
      → ntodo ≤ length l
      → s.idle_running ≡ true
      → All (λ n. n < s.next_handle) (take ntodo l)
      → Result ntodo s (run_ready env ntodo s)
  unfolding run_ready
  run_ready_from zero s l e p i h = (
    0,
    (
      omega arith,
      record {
        added = [];
        ready = sym (append-nil s.ready);
        appended = sym (append-nil s.appended);
        popped = sym (append-nil s.popped);
        idle = i;
        more = [];
        ran = sym (append-nil s.ran);
        next = omega arith;
        cancelled = λ n q c. c;
        served = refl;
      },
      inl (refl, refl),
    ),
  )
  run_ready_from (suc m) s [] e p i h = absurd (omega arith)
  run_ready_from (suc m) s (n ∷ rest) e p i h =
      subst (Result (suc m) s) (sym (run_ready_step m s n rest e)) (
        go_on_lem m (λ t q j k. run_ready_from m t t.ready refl q j k) s n rest
          (turn env n (taken_out env s n rest)) e (omega arith) i h.0 h.1
          (turn_lem env n (taken_out env s n rest) i))

  -- If the idle handle is running and the handles in the queue exist: the loop of `_on_idle` takes
  -- some number of handles from the front of the queue, all of them or fewer, and then the loop is
  -- to stop; what is left of the queue and what was added meanwhile stay in it, in order; and every
  -- handle that was taken is cancelled or its callback was called.
  pub run_ready_lem :
      (s : Loop W)
      → s.idle_running ≡ true
      → All (λ n. n < s.next_handle) s.ready
      → Result (length s.ready) s (run_ready env (length s.ready) s)
  run_ready_lem s i h =
      run_ready_from (length s.ready) s s.ready refl (omega arith) i
        (rw (take_all (length s.ready) s.ready (omega arith)) h)
