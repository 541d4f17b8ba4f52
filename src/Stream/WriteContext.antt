-- ===== src/Stream/WriteContext.antt =====
-- uvloop/handles/stream.pyx, `_StreamWriteContext`: the buffers of one write request. The array of
-- `uv_buf_t` from `uv_bufs_start` on is the list of what each buffer still has to send.
pub mod Advance
use uvloop.Prelude.{ℕ, ◌-◌, List, [], ◌∷◌, ltb, length, drop, if◌then◌else◌}
use uvloop.Errors.{runtime_error}
use uvloop.Python.{Outcome, ok, raise}
use uvloop.Stream.State.{Bytes}

-- `advance_uv_buf(sent)`
unfoldable pub advance_uv_buf : ℕ → List Bytes → Outcome (List Bytes)
advance_uv_buf sent [] = raise runtime_error
advance_uv_buf sent (buf ∷ bufs) =
    if ltb sent (length buf)
    then ok (drop sent buf ∷ bufs)
    else advance_uv_buf (sent - length buf) bufs
