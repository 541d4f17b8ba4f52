-- ===== src/Stream/Join.antt =====
-- `_initiate_write`, and the bytes that join the write buffer of a live connection.
use mathlib.Core.List.{append-nil, append_assoc}
use mathlib.Core.Path.{subst}
use uvloop.Prelude.{
  ◌+◌, true, false, not, ◌&&◌, ◌≡◌, refl, sym, ap, ◌∙◌, inl, inr, List, [], ◌∷◌, ◌++◌, ◌==◌, arith,
  length, concat, concat-append, length-append, ltb, ==→eq,
}
use uvloop.Python.{M, ◌>>=◌, ◌>>◌, pure, modify, branch}
use uvloop.Python.Frames.{Post, branch-Post, bind-Post, branch_state, bind_post}
use uvloop.Stream.State.{Bytes, Env, Stream}
use uvloop.Stream.Transport.{maybe_pause_protocol}
use uvloop.Stream.Write.{exec_write, buffer_write, buffer_all, initiate_write}
use uvloop.Stream.Laws.{Faithful}
use uvloop.Stream.Frame.{is_lost}
use uvloop.Stream.Quiet.{maybe_pause_protocol-Quiet}
use uvloop.Stream.Delivery.{Fate, Quiet-Fate}
use uvloop.Stream.Many.{exec_write-Fate}

no_bytes : (bytes : Bytes) → (length bytes == 0) ≡ true → bytes ≡ []
no_bytes [] h = refl
no_bytes (x ∷ bytes) h = absurd (omega (arith, ==→eq _ _ h))

module _ {W : Type 0} (env : Env W) (sent : W → Bytes) (laws : Faithful env sent) where
  pub initiate_write-Fate :
      (total : Bytes) (s : Stream W) → Fate sent total s → Fate sent total (initiate_write env s).1
  unfolding initiate_write
  initiate_write-Fate total s f =
      branch_state (Fate sent total) (not s.protocol_paused && env.queue_size s.world == 0) fast
        slow s (λ _. sends) (λ _. waits)
    where
      fast : M (Stream W) (Unit {0})
      fast = do all ← exec_write env; branch all (pure tt) (maybe_pause_protocol env)

      slow : M (Stream W) (Unit {0})
      slow =
          branch (ltb 0 s.buffer_size)
            (do maybe_pause_protocol env; modify (λ t. record t { queued = true })) (pure tt)

      paused : (t : Stream W) → Fate sent total t → Fate sent total (maybe_pause_protocol env t).1
      paused =
          Quiet-Fate env sent laws total (maybe_pause_protocol env)
            (maybe_pause_protocol-Quiet env sent laws)

      sends : Fate sent total (fast s).1
      sends =
          bind_post (Fate sent total) (exec_write env s)
            (λ all. branch all (pure tt) (maybe_pause_protocol env))
            (exec_write-Fate env sent laws total s f)
            (λ all t g.
              branch_state (Fate sent total) all (pure tt) (maybe_pause_protocol env) t (λ _. g)
                (λ _. paused t g))

      waits : Fate sent total (slow s).1
      waits =
          branch_state (Fate sent total) (ltb 0 s.buffer_size)
            (do maybe_pause_protocol env; modify (λ t. record t { queued = true })) (pure tt) s
            (λ _.
              bind_post (Fate sent total) (maybe_pause_protocol env s)
                (λ _. modify (λ t. record t { queued = true })) (paused s f)
                (λ _ t g. record {
                  rest = g.rest;
                  split = g.split;
                  kept = g.kept;
                  sized = g.sized;
                  started = g.started;
                }))
            (λ _. f)

  -- Bytes that join the buffer of a live connection.
  abbrev pub Joined : Bytes → Stream W → Type 0
  Joined total t = Fate sent total t × (is_lost t ≡ false)

  pub buffer_write-Joined :
      (total bytes : Bytes) (s : Stream W)
      → is_lost s ≡ false
      → Fate sent total s
      → Post (λ _ t. Joined (total ++ bytes) t) (λ _. ⊥) (buffer_write env bytes s)
  unfolding buffer_write
  buffer_write-Joined total bytes s l f =
      branch-Post (λ _ t. Joined (total ++ bytes) t) (λ _. ⊥) (length bytes == 0) (pure tt)
        (modify grow) s
        (λ e. (
          subst (λ (x : Bytes). Fate sent x s)
              (sym (ap (◌++◌ total) (no_bytes bytes e) ∙ append-nil total)) f,
          l,
        ))
        (λ _. (joined, l))
    where
      grow : Stream W → Stream W
      grow t = record t {
        buffer_size = t.buffer_size + length bytes;
        buffer = t.buffer ++ bytes ∷ [];
      }

      grown : concat (s.buffer ++ bytes ∷ []) ≡ concat s.buffer ++ bytes
      grown = concat-append s.buffer (bytes ∷ []) ∙ ap (◌++◌ (concat s.buffer)) (append-nil bytes)

      no_rest : f.rest ≡ []
      no_rest = elim f.kept [ inl e ↦ e | inr e ↦ absurd (cc (sym l ∙ e)) ]

      whole : sent s.world ++ concat s.buffer ≡ total
      whole =
          ap (◌++◌ (sent s.world)) (sym (append-nil (concat s.buffer)))
          ∙ ap (λ (r : Bytes). sent s.world ++ (concat s.buffer ++ r)) (sym no_rest)
          ∙ f.split

      moved : sent s.world ++ (concat (s.buffer ++ bytes ∷ []) ++ []) ≡ total ++ bytes
      moved =
          ap (◌++◌ (sent s.world)) (append-nil (concat (s.buffer ++ bytes ∷ [])) ∙ grown)
          ∙ sym (append_assoc (sent s.world) (concat s.buffer) bytes)
          ∙ ap (λ (r : Bytes). r ++ bytes) whole

      joined : Fate sent (total ++ bytes) (grow s)
      joined = record {
        rest = [];
        split = moved;
        kept = inl refl;
        sized = omega (arith, f.sized, ap length grown, length-append (concat s.buffer) bytes);
        started = f.started;
      }

  pub buffer_all-Joined :
      (total : Bytes) (bufs : List Bytes) (s : Stream W)
      → is_lost s ≡ false
      → Fate sent total s
      → Post (λ _ t. Joined (total ++ concat bufs) t) (λ _. ⊥) (buffer_all env bufs s)
  unfolding buffer_all
  buffer_all-Joined total [] s l f =
      (subst (λ (x : Bytes). Fate sent x s) (sym (append-nil total)) f, l)
  buffer_all-Joined total (bytes ∷ bufs) s l f =
      bind-Post (λ _ t. Joined (total ++ bytes) t) (λ _. ⊥)
        (λ _ t. Joined (total ++ (bytes ++ concat bufs)) t) (buffer_write env bytes s)
        (λ _. buffer_all env bufs) (buffer_write-Joined total bytes s l f)
        (λ _ t j.
          subst (λ (x : Bytes). Post (λ _ u. Joined x u) (λ _. ⊥) (buffer_all env bufs t))
            (append_assoc total bytes (concat bufs))
            (buffer_all-Joined (total ++ bytes) bufs t j.1 j.0))
