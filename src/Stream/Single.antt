-- ===== src/Stream/Single.antt =====
-- `_exec_write` with one piece of data: `_try_write`, and what becomes of the unsent end.
use mathlib.Core.List.{append-nil, append_assoc}
use mathlib.Core.Path.{subst}
use uvloop.Prelude.{
  ℕ, zero, suc, ◌-◌, ◌≤◌, Bool, true, false, not, ◌||◌, ◌≡◌, refl, sym, ap, ◌∙◌, ◌⊎◌, inl, inr,
  List, [], ◌∷◌, ◌++◌, Option, none, some, ◌==◌, arith, length, take, drop, concat, ltb,
  take-append-drop, drop_all, Bool-cases, ==→eq,
}
use uvloop.Errors.{convert_error, runtime_error}
use uvloop.Python.{M, bind, ◌>>=◌, ◌>>◌, pure, throw, modify, branch}
use uvloop.Python.Frames.{Post, bind-Post, branch-Post, branch_state, bind_state, Post-of}
use uvloop.Stream.State.{Bytes, Env, Stream, Written, wrote, failed, call, ensure_alive}
use uvloop.Stream.Transport.{fatal_error}
use uvloop.Stream.Write.{
  is_eagain, fileno, flush, all_sent, sent_single, try_write, write_retrying, written_result,
  is_retried,
}
use uvloop.Stream.Laws.{Faithful, Writes}
use uvloop.Stream.Frame.{is_lost, Same, Same-refl, Same-trans}
use uvloop.Stream.Quiet.{fatal_error-Quiet, fatal_error-is_lost}
use uvloop.Stream.Delivery.{Fate, flush-Fate, all_sent-Fate, clear-Fate, Same-Fate}

module _ {W : Type 0} (env : Env W) (sent : W → Bytes) (laws : Faithful env sent) where
  Writes-from :
      (bytes : Bytes) (v w : W) (r : Written × W)
      → sent w ≡ sent v
      → Writes sent bytes w r
      → Writes sent bytes v r
  Writes-from bytes v w (wrote n, u) e h = (h.0, rw (← e) h.1)
  Writes-from bytes v w (failed x, u) e h = h ∙ e

  retried_sends :
      (bytes : Bytes) (w : W) (r : Written × W)
      → Writes sent bytes w r
      → is_retried env r.0 ≡ true
      → sent r.1 ≡ sent w
  unfolding is_retried
  retried_sends bytes w (wrote n, u) h e = cc
  retried_sends bytes w (failed x, u) h e = h

  -- The loop round `write(2)` sends what its last round reports, and nothing before.
  write_retrying-Writes :
      (fuel : ℕ) (bytes : Bytes) (w : W) → Writes sent bytes w (write_retrying env fuel bytes w)
  unfolding write_retrying
  write_retrying-Writes zero bytes w = laws.write_writes bytes w
  write_retrying-Writes (suc fuel) bytes w =
      elim (Bool-cases (is_retried env (env.write bytes w).0)) [
        | inl again ↦
            rw (again, write_retrying)
              (Writes-from bytes w (env.write bytes w).1 _
                (retried_sends bytes w (env.write bytes w) (laws.write_writes bytes w) again)
                (write_retrying-Writes fuel bytes (env.write bytes w).1))
        | inr done ↦ rw (done, write_retrying) (laws.write_writes bytes w)
      ]

  -- The state after `n` bytes of `bytes` were sent from `s`.
  record Sent (bytes : Bytes) (s : Stream W) (n : ℕ) (t : Stream W) : Type 0 where
    within : n ≤ length bytes
    grown : sent t.world ≡ sent s.world ++ take n bytes
    buffer : t.buffer ≡ s.buffer
    size : t.buffer_size ≡ s.buffer_size
    started : t.inited ≡ s.inited
    lost : is_lost s ≡ true → is_lost t ≡ true

  abbrev Tried : Bytes → Stream W → Option ℕ → Stream W → Type 0
  Tried bytes s none t = Same sent s t × (is_lost t ≡ true)
  Tried bytes s (some n) t = Sent bytes s n t

  written_result-Tried :
      (bytes : Bytes) (s : Stream W) (r : Written × W)
      → s.inited ≡ true
      → Writes sent bytes s.world r
      → Post (Tried bytes s) (Same sent s) (written_result env r.0 (record s { world = r.1 }))
  unfolding written_result
  written_result-Tried bytes s (wrote n, w) h p = record {
    within = p.0;
    grown = p.1;
    buffer = refl;
    size = refl;
    started = refl;
    lost = λ l. l;
  }
  written_result-Tried bytes s (failed e, w) h p =
      elim (Bool-cases (is_eagain e || env.is_ewouldblock e)) [
        | inl wait ↦ rw wait (record {
          within = omega arith;
          grown = p ∙ sym (append-nil (sent s.world));
          buffer = refl;
          size = refl;
          started = refl;
          lost = λ l. l;
        })
        | inr fatal ↦ rw fatal (
            bind-Post (λ _. Gone) (Same sent s) (Tried bytes s)
              (fatal_error env (convert_error e) true s') (λ _. pure none)
              (Post-of Gone (λ _. Gone) (Same sent s) (fatal_error env (convert_error e) true s')
                gone (λ _ _ g. g) (λ _ g. g.0))
              (λ _ _ g. g))
      ]
    where
      s' : Stream W
      s' = record s { world = w }

      Gone : Stream W → Type 0
      Gone t = Same sent s t × (is_lost t ≡ true)

      moved : Same sent s s'
      moved = record { bytes = p; buffer = refl; size = refl; started = refl; lost = λ l. l }

      gone : Gone (fatal_error env (convert_error e) true s').1
      gone = (
        Same-trans sent s s' _ moved
            ((fatal_error-Quiet env sent laws (convert_error e) true).keeps s'),
        fatal_error-is_lost env sent laws (convert_error e) true s' h,
      )

  fileno_state : (s : Stream W) → (fileno env s).1 ≡ s
  unfolding fileno ensure_alive
  fileno_state s = ground arith

  -- `_try_write` sends a prefix and reports its length, or loses the connection and sends nothing,
  -- or raises and sends nothing.
  try_write-Tried :
      (bytes : Bytes) (s : Stream W)
      → s.inited ≡ true
      → Post (Tried bytes s) (Same sent s) (try_write env bytes s)
  unfolding try_write
  try_write-Tried bytes s h =
      branch-Post (Tried bytes s) (Same sent s) (not (env.queue_size s.world == 0))
        (throw runtime_error) checked s (λ _. Same-refl sent s)
        (λ _.
          branch-Post (Tried bytes s) (Same sent s) (length bytes == 0) (pure (some 0)) attempt s
            (λ _. nothing)
            (λ _.
              bind-Post (λ _ t. t ≡ s) (Same sent s) (Tried bytes s) (fileno env s) (λ _. body)
                (Post-of (λ t. t ≡ s) (λ _ t. t ≡ s) (Same sent s) (fileno env s) (fileno_state s)
                  (λ _ _ e. e) (λ t e. rw e (Same-refl sent s)))
                (λ _ t e.
                  subst (λ u. Post (Tried bytes s) (Same sent s) (body u)) (sym e) written)))
    where
      body : M (Stream W) (Option ℕ)
      body = do r ← call (write_retrying env env.max_interrupts bytes); written_result env r

      attempt : M (Stream W) (Option ℕ)
      attempt = do fileno env; body

      checked : M (Stream W) (Option ℕ)
      checked = branch (length bytes == 0) (pure (some 0)) attempt

      nothing : Sent bytes s 0 s
      nothing = record {
        within = omega arith;
        grown = sym (append-nil (sent s.world));
        buffer = refl;
        size = refl;
        started = refl;
        lost = λ l. l;
      }

      written : Post (Tried bytes s) (Same sent s) (body s)
      written =
          written_result-Tried bytes s (write_retrying env env.max_interrupts bytes s.world) h
            (write_retrying-Writes env.max_interrupts bytes s.world)

  module _ (total : Bytes) where
    pub regroup :
        (a b c : Bytes) (n : ℕ) → a ++ (b ++ c) ≡ total → (a ++ take n b) ++ (drop n b ++ c) ≡ total
    regroup a b c n e =
        append_assoc a (take n b) (drop n b ++ c)
        ∙ ap (◌++◌ a) (sym (append_assoc (take n b) (drop n b) c))
        ∙ ap (λ (x : Bytes). a ++ (x ++ c)) (take-append-drop n b)
        ∙ e

    sent_single-Fate :
        (bytes : Bytes) (s t : Stream W) (r : Option ℕ)
        → Fate sent total s
        → s.buffer ≡ bytes ∷ []
        → Tried bytes s r t
        → Fate sent total (sent_single env bytes r t).1
    unfolding sent_single
    sent_single-Fate bytes s t none f b p =
        branch_state (Fate sent total) t.closing (pure false) (throw runtime_error)
          (record t { buffer = []; buffer_size = 0 }) (λ _. cleared) (λ _. cleared)
      where
        cleared : Fate sent total (record t { buffer = []; buffer_size = 0 })
        cleared = clear-Fate env sent laws total t (Same-Fate env sent laws total s t p.0 f) p.1
    sent_single-Fate bytes s t (some n) f b p =
        branch_state (Fate sent total) (n == length bytes) (all_sent env) partial t
          (λ e. all_sent-Fate env sent laws total t f.rest started kept (
            ap (λ (x : Bytes). sent t.world ++ (x ++ f.rest)) (sym (drop_all n bytes (all_of e)))
            ∙ moved))
          (λ _.
            branch_state (Fate sent total) (ltb 0 n) cut (flush env (bytes ∷ [])) t
              (λ _.
                flush-Fate env sent laws total (drop n bytes ∷ [])
                  (record t { buffer_size = t.buffer_size - n; buffer = drop n bytes ∷ [] }) f.rest
                  started kept (single n moved))
              (λ e.
                flush-Fate env sent laws total (bytes ∷ []) t f.rest started kept
                  (single 0 (subst At (none_of e) moved))))
      where
        cut : M (Stream W) Bool
        cut = do
          modify (λ u. record u { buffer_size = u.buffer_size - n; buffer = drop n bytes ∷ [] })
          flush env (drop n bytes ∷ [])

        partial : M (Stream W) Bool
        partial = branch (ltb 0 n) cut (flush env (bytes ∷ []))

        started : t.inited ≡ true
        started = p.started ∙ f.started

        kept : (f.rest ≡ []) ⊎ (is_lost t ≡ true)
        kept = elim f.kept [ inl e ↦ inl e | inr e ↦ inr (p.lost e) ]

        At : ℕ → Type 0
        At k = sent t.world ++ (drop k bytes ++ f.rest) ≡ total

        moved : At n
        moved =
            ap (λ (x : Bytes). x ++ (drop n bytes ++ f.rest)) p.grown
            ∙ regroup (sent s.world) bytes f.rest n (
                ap (λ (x : Bytes). sent s.world ++ (x ++ f.rest)) (sym (append-nil bytes))
                ∙ ap (λ (x : List Bytes). sent s.world ++ (concat x ++ f.rest)) (sym b)
                ∙ f.split)

        all_of : (n == length bytes) ≡ true → length bytes ≤ n
        all_of e = omega (arith, ==→eq n (length bytes) e)

        none_of : ltb 0 n ≡ false → n ≡ 0
        none_of e = ground arith

        single : (k : ℕ) → At k → sent t.world ++ ((drop k bytes ++ []) ++ f.rest) ≡ total
        single k e =
            ap (λ (x : Bytes). sent t.world ++ (x ++ f.rest)) (append-nil (drop k bytes)) ∙ e

    -- One piece of data, through `_try_write` and `uv_write`.
    pub single-Fate :
        (bytes : Bytes) (s : Stream W)
        → Fate sent total s
        → s.buffer ≡ bytes ∷ []
        → Fate sent total (bind (try_write env bytes s) (sent_single env bytes)).1
    single-Fate bytes s f b =
        bind_state (Tried bytes s) (Same sent s) (Fate sent total) (try_write env bytes s)
          (sent_single env bytes) (try_write-Tried bytes s f.started)
          (λ r t p. sent_single-Fate bytes s t r f b p)
          (λ t p. Same-Fate env sent laws total s t p f)
