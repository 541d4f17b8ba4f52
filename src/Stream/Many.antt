-- ===== src/Stream/Many.antt =====
-- `_exec_write` as a whole: several pieces of data through `uv_try_write`, or straight to
-- `uv_write`.
use mathlib.Core.List.{append-nil}
use mathlib.Core.Path.{subst}
use uvloop.Prelude.{
  ℕ, zero, suc, ◌≤◌, ◌<◌, Bool, true, false, ◌≡◌, refl, sym, ap, ◌∙◌, List, [], ◌∷◌, ◌++◌, ◌==◌,
  arith, length, drop, concat, drop_all, ==→eq,
}
use uvloop.Errors.{convert_error, other}
use uvloop.Python.{M, pure, branch}
use uvloop.Python.Frames.{branch_state}
use uvloop.Stream.State.{Bytes, Env, Stream, Written, wrote, failed}
use uvloop.Stream.Write.{
  is_eagain, flush, all_sent, drop_buffer, advanced, sent_many, send_buffers, queue_buffers,
  exec_write,
}
use uvloop.Stream.WriteContext.{advance_uv_buf}
use uvloop.Stream.WriteContext.Advance.{advance_uv_buf-drop}
use uvloop.Stream.Laws.{Faithful, Writes}
use uvloop.Stream.Delivery.{Fate, flush-Fate, all_sent-Fate, drop_buffer-Fate}
use uvloop.Stream.Single.{single-Fate, regroup}

module _ {W : Type 0} (env : Env W) (sent : W → Bytes) (laws : Faithful env sent)
    (total : Bytes) where
  wrote_some-Fate :
      (s : Stream W) (f : Fate sent total s) (n : ℕ) (w : W)
      → Writes sent (concat s.buffer) s.world (wrote (suc n), w)
      → Fate sent total (sent_many env s.buffer (wrote (suc n)) (record s { world = w })).1
  unfolding sent_many advanced
  wrote_some-Fate s f n w p =
      branch_state (Fate sent total) (k == s.buffer_size) (all_sent env) partial s'
        (λ e. all_sent-Fate env sent laws total s' f.rest f.started f.kept (
          ap (λ (x : Bytes). sent w ++ (x ++ f.rest))
            (sym (drop_all k (concat s.buffer) (all_of e)))
          ∙ moved))
        rest_of
    where
      k : ℕ
      k = suc n

      s' : Stream W
      s' = record s { world = w }

      partial : M (Stream W) Bool
      partial = advanced env (advance_uv_buf k s.buffer)

      moved : sent w ++ (drop k (concat s.buffer) ++ f.rest) ≡ total
      moved =
          ap (λ (x : Bytes). x ++ (drop k (concat s.buffer) ++ f.rest)) p.1
          ∙ regroup env sent laws total (sent s.world) (concat s.buffer) f.rest k f.split

      all_of : (k == s.buffer_size) ≡ true → length (concat s.buffer) ≤ k
      all_of e = omega (arith, ==→eq k s.buffer_size e, f.sized)

      below : (k == s.buffer_size) ≡ false → k < length (concat s.buffer)
      below e = ground (arith, f.sized, p.0)

      rest_of : (k == s.buffer_size) ≡ false → Fate sent total (partial s').1
      rest_of e =
          let (bufs, reached, dropped) = advance_uv_buf-drop k s.buffer (below e) in
          subst (λ o. Fate sent total (advanced env o s').1) (sym reached)
            (flush-Fate env sent laws total bufs s' f.rest f.started f.kept
              (ap (λ (x : Bytes). sent w ++ (x ++ f.rest)) dropped ∙ moved))

  sent_many-Fate :
      (s : Stream W)
      → Fate sent total s
      → (r : Written × W) → Writes sent (concat s.buffer) s.world r
      → Fate sent total (sent_many env s.buffer r.0 (record s { world = r.1 })).1
  unfolding sent_many
  sent_many-Fate s f (wrote zero, w) p =
      drop_buffer-Fate env sent laws total (convert_error (other 0)) (record s { world = w }) f.rest
        f.started f.sized (rw (p.1, append-nil) f.split)
  sent_many-Fate s f (wrote (suc n), w) p = wrote_some-Fate s f n w p
  sent_many-Fate s f (failed e, w) p =
      branch_state (Fate sent total) (is_eagain e) (flush env s.buffer)
        (drop_buffer env (convert_error e)) s'
        (λ _. flush-Fate env sent laws total s.buffer s' f.rest f.started f.kept here)
        (λ _.
          drop_buffer-Fate env sent laws total (convert_error e) s' f.rest f.started f.sized here)
    where
      s' : Stream W
      s' = record s { world = w }

      here : sent w ++ (concat s.buffer ++ f.rest) ≡ total
      here = ap (λ (x : Bytes). x ++ (concat s.buffer ++ f.rest)) p ∙ f.split

  send_buffers-Fate :
      (s : Stream W) (bufs : List Bytes)
      → Fate sent total s
      → s.buffer ≡ bufs
      → Fate sent total (send_buffers env bufs s).1
  unfolding send_buffers
  send_buffers-Fate s [] f b = f
  send_buffers-Fate s (bytes ∷ []) f b = single-Fate env sent laws total bytes s f b
  send_buffers-Fate s (bytes ∷ more ∷ bufs) f b =
      subst
        (λ (l : List Bytes).
          Fate sent total
            (sent_many env l (env.uv_try_write l s.world).0
              (record s { world = (env.uv_try_write l s.world).1 })).1)
        b
        (sent_many-Fate s f (env.uv_try_write s.buffer s.world)
          (laws.try_write_writes s.buffer s.world))

  queue_buffers-Fate :
      (s : Stream W) (bufs : List Bytes)
      → Fate sent total s
      → s.buffer ≡ bufs
      → Fate sent total (queue_buffers env bufs s).1
  unfolding queue_buffers
  queue_buffers-Fate s [] f b = f
  queue_buffers-Fate s (bytes ∷ bufs) f b =
      flush-Fate env sent laws total (bytes ∷ bufs) s f.rest f.started f.kept
        (ap (λ (l : List Bytes). sent s.world ++ (concat l ++ f.rest)) (sym b) ∙ f.split)

  -- `_exec_write`, on every path: closed, nothing to send, one piece, several, or data in libuv's
  -- queue.
  pub exec_write-Fate : (s : Stream W) → Fate sent total s → Fate sent total (exec_write env s).1
  unfolding exec_write
  exec_write-Fate s f =
      branch_state (Fate sent total) s.closed (pure false) open_stream s (λ _. f)
        (λ _.
          branch_state (Fate sent total) (env.queue_size s.world == 0) (send_buffers env s.buffer)
            (queue_buffers env s.buffer) s (λ _. send_buffers-Fate s s.buffer f refl)
            (λ _. queue_buffers-Fate s s.buffer f refl))
    where
      open_stream : M (Stream W) Bool
      open_stream =
          branch (env.queue_size s.world == 0) (send_buffers env s.buffer)
            (queue_buffers env s.buffer)
