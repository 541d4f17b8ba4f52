-- ===== src/Stream/Write.antt =====
-- uvloop/handles/stream.pyx, the writing half of `UVStream`.
use uvloop.Prelude.{
  ℕ, zero, suc, ◌+◌, ◌-◌, Bool, true, false, not, ◌&&◌, ◌||◌, List, [], ◌∷◌, ◌++◌, Option, none,
  some, ltb, ◌==◌, if◌then◌else◌, length, drop,
}
use uvloop.Errors.{Exception, UvError, uv_eintr, uv_eagain, other, convert_error, runtime_error}
use uvloop.Python.{
  M, Outcome, ok, raise, ◌>>=◌, ◌>>◌, pure, throw, modify, branch, whenever, catch, get_state,
}
use uvloop.Stream.State.{
  count_loss, Bytes, Env, Written, wrote, failed, Stream, call, call_soon, call_connection_lost,
  ensure_alive,
}
use uvloop.Stream.Transport.{
  get_write_buffer_size, maybe_pause_protocol, maybe_resume_protocol, fatal_error,
}
use uvloop.Stream.WriteContext.{advance_uv_buf}

abbrev pub is_eintr : UvError → Bool
is_eintr uv_eintr = true
is_eintr _ = false

abbrev pub is_eagain : UvError → Bool
is_eagain uv_eagain = true
is_eagain _ = false

module _ {W : Type 0} (env : Env W) where
  -- `errno == EINTR`, or `EPROTOTYPE` on Apple's systems.
  unfoldable pub is_retried : Written → Bool
  is_retried (wrote n) = false
  is_retried (failed e) = is_eintr e || (env.apple && env.is_eprototype e)

  -- The `while` loop round `write(2)`, on fuel.
  unfoldable pub write_retrying : ℕ → Bytes → W → Written × W
  unfolding is_retried
  write_retrying zero bytes w = env.write bytes w
  write_retrying (suc fuel) bytes w =
      let again = write_retrying fuel bytes (env.write bytes w).1 in
      if is_retried (env.write bytes w).0 then again else env.write bytes w

  unfoldable pub fileno : M (Stream W) (Unit {0})
  unfolding ensure_alive
  fileno = do
    ensure_alive
    s ← get_state
    elim (env.fileno s.world) [ none ↦ pure tt | some e ↦ throw (convert_error e) ]

  -- The end of `_try_write`: `none` is the -1 of the source.
  unfoldable pub written_result : Written → M (Stream W) (Option ℕ)
  unfolding fatal_error
  written_result (wrote n) = pure (some n)
  written_result (failed e) =
      branch (is_eagain e || env.is_ewouldblock e) (pure (some 0))
        (do fatal_error env (convert_error e) true; pure none)

  unfoldable pub try_write : Bytes → M (Stream W) (Option ℕ)
  unfolding write_retrying fileno written_result
  try_write bytes s =
      branch (not (env.queue_size s.world == 0)) (throw runtime_error)
        (branch (length bytes == 0) (pure (some 0)) (do
          fileno
          written ← call (write_retrying env.max_interrupts bytes)
          written_result written))
        s

  -- The end of `_shutdown`, on the result of `uv_shutdown`.
  unfoldable pub shutdown_started : Option UvError → M (Stream W) (Unit {0})
  unfolding fatal_error
  shutdown_started none = pure tt
  shutdown_started (some e) = fatal_error env (convert_error e) true

  unfoldable pub shutdown : M (Stream W) (Unit {0})
  unfolding ensure_alive shutdown_started
  shutdown s =
      branch s.shutting_down (pure tt)
        (do
          modify (λ t. record t { shutting_down = true })
          ensure_alive
          err ← call env.uv_shutdown
          shutdown_started err)
        s

  unfoldable pub on_write : M (Stream W) (Unit {0})
  unfolding maybe_resume_protocol get_write_buffer_size shutdown
  on_write = do
    maybe_resume_protocol env
    s ← get_state
    whenever (get_write_buffer_size env s == 0)
        (branch s.closing (call_soon (call_connection_lost none)) (whenever s.eof shutdown))

  abbrev pub clear_buffer : M (Stream W) (Unit {0})
  clear_buffer = modify (λ s. record s { buffer = []; buffer_size = 0 })

  -- The end of `_exec_write`, on the result of `uv_write`.
  unfoldable pub flushed : Option UvError → M (Stream W) Bool
  unfolding fatal_error maybe_resume_protocol
  flushed none = do maybe_resume_protocol env; pure false
  flushed (some e) = do fatal_error env (convert_error e) true; pure false

  -- The buffers of the write context go to `uv_write`.
  unfoldable pub flush : List Bytes → M (Stream W) Bool
  unfolding flushed
  flush bufs = do err ← call (env.uv_write bufs); clear_buffer; flushed err

  unfoldable pub all_sent : M (Stream W) Bool
  unfolding on_write
  all_sent = do clear_buffer; on_write; pure true

  -- `_exec_write` with one piece of data, after `_try_write`.
  unfoldable pub sent_single : Bytes → Option ℕ → M (Stream W) Bool
  unfolding all_sent flush
  sent_single bytes none = do
    clear_buffer
    s ← get_state
    branch s.closing (pure false) (throw runtime_error)
  sent_single bytes (some sent) = branch (sent == length bytes) all_sent (
      branch (ltb 0 sent)
        (do
          modify
              (λ s. record s { buffer_size = s.buffer_size - sent; buffer = drop sent bytes ∷ [] })
          flush (drop sent bytes ∷ []))
        (flush (bytes ∷ [])))

  unfoldable pub drop_buffer : Exception → M (Stream W) Bool
  unfolding fatal_error
  drop_buffer exc = do fatal_error env exc true; clear_buffer; pure false

  -- The `try` round `advance_uv_buf`.
  unfoldable pub advanced : Outcome (List Bytes) → M (Stream W) Bool
  unfolding flush drop_buffer
  advanced (ok rest) = flush rest
  advanced (raise ex) = drop_buffer ex

  -- `_exec_write` with several pieces, after `uv_try_write`.
  unfoldable pub sent_many : List Bytes → Written → M (Stream W) Bool
  unfolding all_sent flush drop_buffer advanced
  sent_many bufs (wrote zero) s = drop_buffer (convert_error (other 0)) s
  sent_many bufs (wrote (suc n)) s =
      branch (suc n == s.buffer_size) all_sent (advanced (advance_uv_buf (suc n) bufs)) s
  sent_many bufs (failed e) s = branch (is_eagain e) (flush bufs) (drop_buffer (convert_error e)) s

  unfoldable pub send_buffers : List Bytes → M (Stream W) Bool
  unfolding all_sent flush sent_single sent_many try_write
  send_buffers [] = pure true
  send_buffers (bytes ∷ []) = do sent ← try_write bytes; sent_single bytes sent
  send_buffers (bytes ∷ more ∷ bufs) = do
    written ← call (env.uv_try_write (bytes ∷ more ∷ bufs))
    sent_many (bytes ∷ more ∷ bufs) written

  -- `write_queue_size != 0`: straight to `uv_write`.
  unfoldable pub queue_buffers : List Bytes → M (Stream W) Bool
  unfolding flush
  queue_buffers [] = pure true
  queue_buffers (bytes ∷ bufs) = flush (bytes ∷ bufs)

  unfoldable pub exec_write : M (Stream W) Bool
  unfolding send_buffers queue_buffers
  exec_write s =
      branch s.closed (pure false)
        (branch (env.queue_size s.world == 0) (send_buffers s.buffer) (queue_buffers s.buffer)) s

  unfoldable pub buffer_write : Bytes → M (Stream W) (Unit {0})
  buffer_write bytes = branch (length bytes == 0) (pure tt) (
      modify (λ s. record s {
        buffer_size = s.buffer_size + length bytes;
        buffer = s.buffer ++ bytes ∷ [];
      }))

  unfoldable pub initiate_write : M (Stream W) (Unit {0})
  unfolding exec_write maybe_pause_protocol
  initiate_write s =
      branch (not s.protocol_paused && env.queue_size s.world == 0)
        (do sent ← exec_write; branch sent (pure tt) (maybe_pause_protocol env))
        (whenever (ltb 0 s.buffer_size)
          (do maybe_pause_protocol env; modify (λ t. record t { queued = true })))
        s

  unfoldable pub write : Bytes → M (Stream W) (Unit {0})
  unfolding ensure_alive buffer_write initiate_write
  write bytes = do
    ensure_alive
    s ← get_state
    branch s.eof (throw runtime_error) (
        branch (length bytes == 0) (pure tt)
          (branch (s.conn_lost == 0) (do buffer_write bytes; initiate_write) count_loss))

  unfoldable pub buffer_all : List Bytes → M (Stream W) (Unit {0})
  unfolding buffer_write
  buffer_all [] = pure tt
  buffer_all (bytes ∷ bufs) = do buffer_write bytes; buffer_all bufs

  unfoldable pub writelines : List Bytes → M (Stream W) (Unit {0})
  unfolding ensure_alive buffer_all initiate_write
  writelines bufs = do
    ensure_alive
    s ← get_state
    branch s.eof (throw runtime_error)
        (branch (s.conn_lost == 0) (do buffer_all bufs; initiate_write) count_loss)

  unfoldable pub write_eof : M (Stream W) (Unit {0})
  unfolding ensure_alive get_write_buffer_size shutdown
  write_eof = do
    ensure_alive
    s ← get_state
    branch s.eof (pure tt) (do
      modify (λ t. record t { eof = true })
      t ← get_state
      whenever (get_write_buffer_size env t == 0) shutdown)

  -- `__uv_stream_on_write_impl`: the callback of `uv_write`, with its status.
  unfoldable pub uv_on_write : Option UvError → M (Stream W) (Unit {0})
  unfolding fatal_error on_write
  uv_on_write status s =
      branch s.closed (pure tt)
        (elim status [
          | some e ↦ fatal_error env (convert_error e) false
          | none ↦ catch on_write (λ ex. fatal_error env ex false)
        ])
        s
