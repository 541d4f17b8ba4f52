-- ===== src/Polls/Switching.antt =====
-- uvloop/handles/poll.pyx: starting and stopping to read and to write keeps what libuv watches for
-- in step with the handles.
use uvloop.Prelude.{
  ℕ, ◌≡◌, refl, sym, ap, ◌∙◌, inl, inr, Bool, true, false, Option, none, some, is_some, arith,
}
use mathlib.Core.Path.{subst}
use uvloop.Errors.{Exception}
use uvloop.Python.{M, bind, ◌>>◌, pure, branch}
use uvloop.Python.Frames.{Keeps, bind_state, bind-pure, Post_state, Post-map}
use uvloop.Polls.{Poll, PollEnv, Polls, set_poll, cancel, stop}
use uvloop.Polls.Methods.{poll_start, start_reading, start_writing, stop_reading, stop_writing}
use uvloop.Polls.Watched.{
  Matches, with_one, Watched, watch, Watched-with_one, Watched-closed, set_poll-watch, stop-Watched,
}
use uvloop.Polls.Starting.{Started, poll_start_lem}
use uvloop.Polls.Kept.{update_at, replaced}

-- Over a run of a handle and `_handle_exception`.
module _ {W : Type 0} (env : PollEnv W) (run_handle : ℕ → M (Polls W) (Unit {0}))
    (handle_exception : Exception → M (Polls W) (Unit {0}))
    (runs : (x : ℕ → Bool) (h : ℕ) → Keeps (watch x) (run_handle h))
    (reports : (x : ℕ → Bool) (e : Exception) → Keeps (watch x) (handle_exception e)) where
  -- After `poll_start`, a `UVPoll` gets the handle that was missing.
  sets_flags :
      (i : ℕ) (r w : Bool) (x : ℕ → Bool) (s t : Polls W) (f : Poll → Poll)
      → ((p : Poll) → (f p).alive ≡ p.alive)
      → Matches (f (record (s.objects i) { readable = r; writable = w }))
      → Started env run_handle handle_exception runs reports i r w x s t
      → Watched x (set_poll i f t).1
  sets_flags i r w x s t f a m (inl (q, d)) =
      Watched-closed i x (set_poll i f t).1
        ((set_poll-watch i x f).keeps t (Watched-with_one i x t q))
        (λ b.
          absurd (cc (d, sym (a (t.objects i)), sym (update_at t.objects i (f (t.objects i))), b)))
  sets_flags i r w x s t f a m (inr (q, e)) =
      Watched-closed i x (set_poll i f t).1 ((set_poll-watch i x f).keeps t q)
        (λ b. subst Matches (ap f (sym e) ∙ sym (update_at t.objects i (f (t.objects i)))) m)

  pub start_reading-watch :
      (i h : ℕ) (x : ℕ → Bool) → Keeps (watch x) (start_reading env run_handle handle_exception i h)
  unfolding start_reading cancel
  start_reading-watch i h x = record { keeps = λ s w. go s w (s.objects i).reading_handle refl }
    where
      go :
          (s : Polls W)
          → Watched x s
          → (o : Option ℕ) → (s.objects i).reading_handle ≡ o
          → Watched x
              (bind
                (branch
                  (is_some o)
                  (cancel o)
                  (poll_start env run_handle handle_exception i true
                    (is_some (s.objects i).writing_handle))
                  s)
                (λ _. set_poll i (λ p. record p { reading_handle = some h }))).1
      go s w (some k) e =
          replaced i x (cancel (some k) s).1 (λ p. record p { reading_handle = some h }) refl
            (λ m. (m.0 ∙ ap is_some e, m.1)) w
      go s w none e =
          bind_state
            (λ _ t.
              Started env run_handle handle_exception runs reports i true
                (is_some (s.objects i).writing_handle) x s t)
            (Watched x) (Watched x)
            (poll_start env run_handle handle_exception i true
              (is_some (s.objects i).writing_handle) s)
            (λ _. set_poll i (λ p. record p { reading_handle = some h }))
            (poll_start_lem env run_handle handle_exception runs reports i true
              (is_some (s.objects i).writing_handle) x s (Watched-with_one i x s w))
            (λ _ t q.
              sets_flags i true (is_some (s.objects i).writing_handle) x s t
                (λ p. record p { reading_handle = some h }) (λ p. refl) (refl, refl) q)
            (λ t q. q)

  pub start_writing-watch :
      (i h : ℕ) (x : ℕ → Bool) → Keeps (watch x) (start_writing env run_handle handle_exception i h)
  unfolding start_writing cancel
  start_writing-watch i h x = record { keeps = λ s w. go s w (s.objects i).writing_handle refl }
    where
      go :
          (s : Polls W)
          → Watched x s
          → (o : Option ℕ) → (s.objects i).writing_handle ≡ o
          → Watched x
              (bind
                (branch
                  (is_some o)
                  (cancel o)
                  (poll_start env run_handle handle_exception i
                    (is_some (s.objects i).reading_handle)
                    true)
                  s)
                (λ _. set_poll i (λ p. record p { writing_handle = some h }))).1
      go s w (some k) e =
          replaced i x (cancel (some k) s).1 (λ p. record p { writing_handle = some h }) refl
            (λ m. (m.0, m.1 ∙ ap is_some e)) w
      go s w none e =
          bind_state
            (λ _ t.
              Started env run_handle handle_exception runs reports i
                (is_some (s.objects i).reading_handle) true x s t)
            (Watched x) (Watched x)
            (poll_start env run_handle handle_exception i (is_some (s.objects i).reading_handle)
              true s)
            (λ _. set_poll i (λ p. record p { writing_handle = some h }))
            (poll_start_lem env run_handle handle_exception runs reports i
              (is_some (s.objects i).reading_handle) true x s (Watched-with_one i x s w))
            (λ _ t q.
              sets_flags i (is_some (s.objects i).reading_handle) true x s t
                (λ p. record p { writing_handle = some h }) (λ p. refl) (refl, refl) q)
            (λ t q. q)

  -- What `poll_start` leaves where the handles are as they should be.
  flags-Watched :
      (i : ℕ) (r w : Bool) (x : ℕ → Bool) (s t : Polls W)
      → Matches (record (s.objects i) { readable = r; writable = w })
      → Started env run_handle handle_exception runs reports i r w x s t
      → Watched x t
  flags-Watched i r w x s t m (inl q) = q.0
  flags-Watched i r w x s t m (inr q) = Watched-closed i x t q.0 (λ b. subst Matches (sym q.1) m)

  poll_start-Watched :
      (i : ℕ) (r w : Bool) (x : ℕ → Bool) (s : Polls W)
      → Watched (with_one i x) s
      → Matches (record (s.objects i) { readable = r; writable = w })
      → Watched x (poll_start env run_handle handle_exception i r w s).1
  poll_start-Watched i r w x s h m =
      Post_state (Watched x) (poll_start env run_handle handle_exception i r w s) (
        Post-map (λ _ t. Started env run_handle handle_exception runs reports i r w x s t)
          (λ _ t. Watched x t) (Watched x) (poll_start env run_handle handle_exception i r w s)
          (poll_start_lem env run_handle handle_exception runs reports i r w x s h)
          (λ _ t q. flags-Watched i r w x s t m q))

  -- The end of `stop_reading` and of `stop_writing`: `o` is the other handle.
  ends-Watched :
      (i : ℕ) (r w : Bool) (x : ℕ → Bool) (s : Polls W) (o : Option ℕ)
      → Watched (with_one i x) s
      → (is_some o ≡ true → Matches (record (s.objects i) { readable = r; writable = w }))
      → Watched x
          (branch (is_some o) (poll_start env run_handle handle_exception i r w) (stop i) s).1
  ends-Watched i r w x s (some k) h m = poll_start-Watched i r w x s h (m refl)
  ends-Watched i r w x s none h m = stop-Watched i x s h

  pub stop_reading-watch :
      (i : ℕ) (x : ℕ → Bool) → Keeps (watch x) (stop_reading env run_handle handle_exception i)
  unfolding stop_reading cancel
  stop_reading-watch i x = record { keeps = λ s w. go s w (s.objects i).reading_handle }
    where
      go :
          (s : Polls W)
          → Watched x s
          → (o : Option ℕ)
          → Watched x
              (branch
                (is_some o)
                (do
                  cancel o
                  set_poll i (λ p. record p { reading_handle = none })
                  branch
                      (is_some (s.objects i).writing_handle)
                      (poll_start env run_handle handle_exception i false true)
                      (stop i)
                  pure true)
                (pure false)
                s).1
      go s w none = w
      go s w (some k) =
          let f : Poll → Poll = λ p. record p { reading_handle = none } in
          let t : Polls W = (set_poll i f (cancel (some k) s).1).1 in
          let r =
            branch (is_some (s.objects i).writing_handle)
              (poll_start env run_handle handle_exception i false true) (stop i) t in
          subst (Watched x) (sym (bind-pure r true)) (
            ends-Watched i false true x t (s.objects i).writing_handle
              ((set_poll-watch i x f).keeps (cancel (some k) s).1 (Watched-with_one i x s w))
              (λ e. ground (arith, e)))

  pub stop_writing-watch :
      (i : ℕ) (x : ℕ → Bool) → Keeps (watch x) (stop_writing env run_handle handle_exception i)
  unfolding stop_writing cancel
  stop_writing-watch i x = record { keeps = λ s w. go s w (s.objects i).writing_handle }
    where
      go :
          (s : Polls W)
          → Watched x s
          → (o : Option ℕ)
          → Watched x
              (branch
                (is_some o)
                (do
                  cancel o
                  set_poll i (λ p. record p { writing_handle = none })
                  branch
                      (is_some (s.objects i).reading_handle)
                      (poll_start env run_handle handle_exception i true false)
                      (stop i)
                  pure true)
                (pure false)
                s).1
      go s w none = w
      go s w (some k) =
          let f : Poll → Poll = λ p. record p { writing_handle = none } in
          let t : Polls W = (set_poll i f (cancel (some k) s).1).1 in
          let r =
            branch (is_some (s.objects i).reading_handle)
              (poll_start env run_handle handle_exception i true false) (stop i) t in
          subst (Watched x) (sym (bind-pure r true)) (
            ends-Watched i true false x t (s.objects i).reading_handle
              ((set_poll-watch i x f).keeps (cancel (some k) s).1 (Watched-with_one i x s w))
              (λ e. ground (arith, e)))
