-- ===== src/Loop/Round.antt =====
-- uvloop/loop.pyx: a whole round of `_on_idle`.
use mathlib.Core.List.{append_assoc}
use uvloop.Prelude.{
  ℕ, ◌≤◌, ◌<◌, ◌≡◌, ap, ◌∙◌, ◌⊎◌, inl, inr, Bool, true, false, List, ◌++◌, length, take, drop, All,
}
use uvloop.Python.{Outcome, ok, raise, bind, whenever}
use uvloop.Loop.State.{Env, Loop}
use uvloop.Loop.Rounds.{run_ready, finish_round, on_idle}
use uvloop.Loop.Served.{Served, Took}
use uvloop.Loop.Order.{Result, run_ready_lem}
use uvloop.Loop.Later.{Later-refl, Later, finish_round-Later}
use uvloop.Loop.Known.{IsKnown}

module _ {W : Type 0} (env : Env W) where
  -- From `s` to `t` the first `k` handles of the queue had their turns, and others came after.
  pub record Passed (k : ℕ) (s t : Loop W) : Type 0 where
    pub added : List ℕ
    pub ready : t.ready ≡ drop k s.ready ++ added
    pub appended : t.appended ≡ s.appended ++ added
    pub popped : t.popped ≡ s.popped ++ take k s.ready
    pub ended : Loop W
    pub served : Served env (take k s.ready) s ended
    pub later : Later ended t

  passed : (k : ℕ) (s t : Loop W) → Took env k s t → Passed k s t
  passed k s t w = record {
    added = w.added;
    ready = w.ready;
    appended = w.appended;
    popped = w.popped;
    ended = t;
    served = w.served;
    later = Later-refl t;
  }

  Passed-Later : (k : ℕ) (s t u : Loop W) → IsKnown s → Took env k s t → Later t u → Passed k s u
  Passed-Later k s t u h w l = record {
    added = w.added ++ l.added;
    ready =
        l.ready ∙ ap (λ x. x ++ l.added) w.ready ∙ append_assoc (drop k s.ready) w.added l.added;
    appended =
        l.appended ∙ ap (λ x. x ++ l.added) w.appended ∙ append_assoc s.appended w.added l.added;
    popped = l.popped ∙ w.popped;
    ended = t;
    served = w.served;
    later = l;
  }

module _ {W : Type 0} (env : Env W) where
  -- If the idle handler is running and the handles in the queue exist: whatever their callbacks do,
  -- `_on_idle` takes some number of handles from the front of the queue and gives each its turn, in
  -- order: one that is cancelled when its turn comes is skipped, and of another the callback is
  -- called in the state of that moment, and what follows only adds to what the callback did. What
  -- is left of the queue stays in front of what was added meanwhile; and the round took the whole
  -- queue, or the loop is to stop.
  pub on_idle_lem :
      (s : Loop W)
      → s.idle_running ≡ true
      → All (λ n. n < s.next_handle) s.ready
      → (k : ℕ) × ((k ≤ length s.ready)
          × Passed env k s (on_idle env s).1
          × ((k ≡ length s.ready) ⊎ ((on_idle env s).1.stopping ≡ true)))
  unfolding on_idle
  on_idle_lem s i h = go (run_ready env (length s.ready) s) (run_ready_lem env s i h)
    where
      go :
          (r : Outcome Bool × Loop W)
          → Result env (length s.ready) s r
          → (k : ℕ) × ((k ≤ length s.ready)
              × Passed env k s (bind r (λ goes_on. whenever goes_on (finish_round env))).1
              × ((k ≡ length s.ready)
                  ⊎ ((bind r (λ goes_on. whenever goes_on (finish_round env))).1.stopping ≡ true)))
      go (ok true, t) (k, (l, w, inl e)) = (
        k,
        (
          l,
          Passed-Later env k s t (finish_round env t).1 h w ((finish_round-Later env).keeps t),
          inl e.1,
        ),
      )
      go (ok true, t) (k, (l, w, inr e)) = absurd (cc e.0)
      go (ok false, t) (k, (l, w, inl e)) = absurd (cc e.0)
      go (ok false, t) (k, (l, w, inr e)) = (k, (l, passed env k s t w, inr e.1))
      go (raise x, t) (k, (l, w, inl e)) = absurd (cc e.0)
      go (raise x, t) (k, (l, w, inr e)) = absurd (cc e.0)
