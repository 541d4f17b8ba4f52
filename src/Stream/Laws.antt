-- ===== src/Stream/Laws.antt =====
-- What the write path relies on in the operating system and libuv: a count of bytes that were
-- written is the length of a prefix that was sent, `uv_write` takes over all it is given, and
-- nothing else sends bytes of the stream: the protocol writes nothing to its transport while its
-- `pause_writing` or `resume_writing` runs.
use uvloop.Prelude.{◌≤◌, ◌≡◌, ◌++◌, List, Option, none, some, length, take, concat}
use uvloop.Errors.{UvError}
use uvloop.Stream.State.{Bytes, Env, Written, wrote, failed}

module _ {W : Type 0} (sent : W → Bytes) where
  -- A write of `bytes` at `w` with this result.
  abbrev pub Writes : Bytes → W → Written × W → Type 0
  Writes bytes w (wrote n, w') = (n ≤ length bytes) × (sent w' ≡ sent w ++ take n bytes)
  Writes bytes w (failed e, w') = sent w' ≡ sent w

  abbrev pub TakesOver : List Bytes → W → Option UvError × W → Type 0
  TakesOver bufs w (none, w') = sent w' ≡ sent w ++ concat bufs
  TakesOver bufs w (some e, w') = sent w' ≡ sent w

-- `sent w` are the bytes that the operating system or libuv has taken over, in order.
pub record Faithful {W : Type 0} (env : Env W) (sent : W → Bytes) : Type 0 where
  pub write_writes : (bytes : Bytes) (w : W) → Writes sent bytes w (env.write bytes w)
  pub try_write_writes :
      (bufs : List Bytes) (w : W) → Writes sent (concat bufs) w (env.uv_try_write bufs w)
  pub write_takes : (bufs : List Bytes) (w : W) → TakesOver sent bufs w (env.uv_write bufs w)
  pub shutdown_sends : (w : W) → sent (env.uv_shutdown w).1 ≡ sent w
  pub read_start_sends : (w : W) → sent (env.uv_read_start w).1 ≡ sent w
  pub read_stop_sends : (w : W) → sent (env.uv_read_stop w).1 ≡ sent w
  pub close_sends : (w : W) → sent (env.uv_close w) ≡ sent w
  pub pause_sends : (w : W) → sent (env.pause_writing w).1 ≡ sent w
  pub resume_sends : (w : W) → sent (env.resume_writing w).1 ≡ sent w
  pub release_sends : (w : W) → sent (env.release_fileobj w).1 ≡ sent w
