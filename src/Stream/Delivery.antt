-- ===== src/Stream/Delivery.antt =====
-- Where the bytes of a write go: `uvloop/handles/stream.pyx` neither loses nor reorders them while
-- the connection lives.
use mathlib.Core.List.{append_assoc}
use uvloop.Prelude.{
  Bool, true, false, ◌≡◌, refl, ◌∙◌, ◌⊎◌, inl, inr, List, [], ◌++◌, Option, none, some, ◌==◌, arith,
  length, concat,
}
use uvloop.Errors.{Exception, UvError, convert_error}
use uvloop.Python.{M, ◌>>◌, pure, modify}
use uvloop.Python.Frames.{
  pure-Keeps, get_state-Keeps, branch-Keeps, branch_of-Keeps, bind-Keeps, bind_post,
}
use uvloop.Stream.State.{Bytes, Env, Stream, call_connection_lost}
use uvloop.Stream.Transport.{get_write_buffer_size, maybe_resume_protocol, fatal_error}
use uvloop.Stream.Write.{
  shutdown, shutdown_started, on_write, flush, flushed, all_sent, drop_buffer, clear_buffer,
}
use uvloop.Stream.Laws.{Faithful, TakesOver}
use uvloop.Stream.Frame.{is_lost, Same, same, call-Same, call_soon-Same, ensure_alive-Same}
use uvloop.Stream.Quiet.{Quiet, fatal_error-Quiet, fatal_error-is_lost, maybe_resume_protocol-Quiet}

-- `total` are the bytes that the stream has accepted so far: those sent, those in the write buffer,
-- and a rest that was given up, which there is only once the connection is lost.
pub record Fate {W : Type 0} (sent : W → Bytes) (total : Bytes) (s : Stream W) : Type 0 where
  pub rest : Bytes
  pub split : sent s.world ++ (concat s.buffer ++ rest) ≡ total
  pub kept : (rest ≡ []) ⊎ (is_lost s ≡ true)
  pub sized : s.buffer_size ≡ length (concat s.buffer)
  pub started : s.inited ≡ true

module _ {W : Type 0} (env : Env W) (sent : W → Bytes) (laws : Faithful env sent) where
  pub shutdown-Quiet : Quiet env sent laws (shutdown env)
  unfolding shutdown
  shutdown-Quiet =
      branch_of-Keeps (same sent) (λ s. s.shutting_down) (pure-Keeps (same sent) tt)
        (bind-Keeps (same sent) set_shutting-Quiet (λ _.
          bind-Keeps (same sent) (ensure_alive-Same sent) (λ _.
            bind-Keeps (same sent) (call-Same sent env.uv_shutdown laws.shutdown_sends) started)))
    where
      set_shutting-Quiet : Quiet env sent laws (modify (λ t. record t { shutting_down = true }))
      set_shutting-Quiet = record { keeps = λ t. ground arith }

      started : (err : Option UvError) → Quiet env sent laws (shutdown_started env err)
      started none = pure-Keeps (same sent) tt
      started (some e) = fatal_error-Quiet env sent laws (convert_error e) true

  pub on_write-Quiet : Quiet env sent laws (on_write env)
  unfolding on_write
  on_write-Quiet = bind-Keeps (same sent) (maybe_resume_protocol-Quiet env sent laws) (λ _.
      bind-Keeps (same sent) (get_state-Keeps (same sent)) (λ s.
        branch-Keeps (same sent) (get_write_buffer_size env s == 0)
          (branch-Keeps (same sent) s.closing (call_soon-Same sent (call_connection_lost none))
            (branch-Keeps (same sent) s.eof shutdown-Quiet (pure-Keeps (same sent) tt)))
          (pure-Keeps (same sent) tt)))

  module _ (total : Bytes) where
    pub Same-Fate : (s t : Stream W) → Same sent s t → Fate sent total s → Fate sent total t
    Same-Fate s t p f = record {
      rest = f.rest;
      split = rw (p.bytes, p.buffer) f.split;
      kept = elim f.kept [ inl e ↦ inl e | inr e ↦ inr (p.lost e) ];
      sized = rw (p.size, p.buffer) f.sized;
      started = p.started ∙ f.started;
    }

    pub Quiet-Fate :
        {A : Type 0} (m : M (Stream W) A)
        → Quiet env sent laws m
        → (s : Stream W) → Fate sent total s
        → Fate sent total (m s).1
    Quiet-Fate m q s f = Same-Fate s (m s).1 (q.keeps s) f

    -- A state with an empty buffer, after a fatal error.
    pub lost-Fate :
        (exc : Exception) (throws : Bool) (s : Stream W) (rest : Bytes)
        → s.inited ≡ true
        → s.buffer_size ≡ length (concat s.buffer)
        → sent s.world ++ (concat s.buffer ++ rest) ≡ total
        → Fate sent total (fatal_error env exc throws s).1
    lost-Fate exc throws s rest h z e =
        let q = (fatal_error-Quiet env sent laws exc throws).keeps s in
        record {
          rest = rest;
          split = rw (q.bytes, q.buffer) e;
          kept = inr (fatal_error-is_lost env sent laws exc throws s h);
          sized = rw (q.size, q.buffer) z;
          started = q.started ∙ h;
        }

    flushed-Fate :
        (bufs : List Bytes) (s : Stream W) (rest : Bytes) (r : Option UvError × W)
        → TakesOver sent bufs s.world r
        → s.inited ≡ true
        → (rest ≡ []) ⊎ (is_lost s ≡ true)
        → sent s.world ++ (concat bufs ++ rest) ≡ total
        → Fate sent total
            (flushed env r.0 (record s { world = r.1; buffer = []; buffer_size = 0 })).1
    unfolding flushed
    flushed-Fate bufs s rest (none, w) t h k e =
        bind_post (Fate sent total) (maybe_resume_protocol env s') (λ _. pure false)
          (Quiet-Fate (maybe_resume_protocol env) (maybe_resume_protocol-Quiet env sent laws) s'
            (record {
              rest = rest;
              split = rw t (append_assoc (sent s.world) (concat bufs) rest ∙ e);
              kept = k;
              sized = refl;
              started = h;
            }))
          (λ _ _ p. p)
      where
        s' : Stream W
        s' = record s { world = w; buffer = []; buffer_size = 0 }
    flushed-Fate bufs s rest (some x, w) t h k e =
        bind_post (Fate sent total) (fatal_error env (convert_error x) true s') (λ _. pure false)
          (lost-Fate (convert_error x) true s' (concat bufs ++ rest) h refl (rw t e)) (λ _ _ p. p)
      where
        s' : Stream W
        s' = record s { world = w; buffer = []; buffer_size = 0 }

    pub flush-Fate :
        (bufs : List Bytes) (s : Stream W) (rest : Bytes)
        → s.inited ≡ true
        → (rest ≡ []) ⊎ (is_lost s ≡ true)
        → sent s.world ++ (concat bufs ++ rest) ≡ total
        → Fate sent total (flush env bufs s).1
    unfolding flush
    flush-Fate bufs s rest h k e =
        flushed-Fate bufs s rest (env.uv_write bufs s.world) (laws.write_takes bufs s.world) h k e

    pub all_sent-Fate :
        (s : Stream W) (rest : Bytes)
        → s.inited ≡ true
        → (rest ≡ []) ⊎ (is_lost s ≡ true)
        → sent s.world ++ rest ≡ total
        → Fate sent total (all_sent env s).1
    unfolding all_sent
    all_sent-Fate s rest h k e =
        bind_post (Fate sent total) (on_write env s') (λ _. pure true)
          (Quiet-Fate (on_write env) on_write-Quiet s'
            (record { rest = rest; split = e; kept = k; sized = refl; started = h }))
          (λ _ _ p. p)
      where
        s' : Stream W
        s' = record s { buffer = []; buffer_size = 0 }

    -- The buffer of a lost connection may be given up.
    pub clear-Fate :
        (s : Stream W)
        → Fate sent total s
        → is_lost s ≡ true
        → Fate sent total (record s { buffer = []; buffer_size = 0 })
    clear-Fate s f lost = record {
      rest = concat s.buffer ++ f.rest;
      split = f.split;
      kept = inr lost;
      sized = refl;
      started = f.started;
    }

    abbrev GivenUp : Stream W → Type 0
    GivenUp t = Fate sent total t × (is_lost t ≡ true)

    finish : M (Stream W) Bool
    finish = do clear_buffer env; pure false

    pub drop_buffer-Fate :
        (exc : Exception) (s : Stream W) (rest : Bytes)
        → s.inited ≡ true
        → s.buffer_size ≡ length (concat s.buffer)
        → sent s.world ++ (concat s.buffer ++ rest) ≡ total
        → Fate sent total (drop_buffer env exc s).1
    unfolding drop_buffer finish
    drop_buffer-Fate exc s rest h z e =
        (bind_post GivenUp (fatal_error env exc true s) (λ _. finish)
          (lost-Fate exc true s rest h z e, fatal_error-is_lost env sent laws exc true s h)
          (λ _ t f. (clear-Fate t f.0 f.1, f.1))).0
