-- ===== src/Stream/WriteContext/Advance.antt =====
-- `_StreamWriteContext.advance_uv_buf` drops exactly the bytes that were sent.
use uvloop.Prelude.{
  ℕ, ◌-◌, ◌≤◌, ◌<◌, ◌≡◌, refl, sym, ◌∙◌, false, List, [], ◌∷◌, length, drop, concat, ltb, arith,
  length-append, drop-append_left, drop-append_right, Bool-cases, inl, inr, ltb→lt,
}
use uvloop.Errors.{runtime_error}
use uvloop.Python.{ok, raise}
use uvloop.Stream.State.{Bytes}
use uvloop.Stream.WriteContext.{advance_uv_buf}

-- If fewer bytes were sent than the buffers hold, `advance_uv_buf` succeeds, and what the buffers
-- hold afterwards is what they held without its first `sent` bytes.
pub advance_uv_buf-drop :
    (sent : ℕ) (bufs : List Bytes)
    → sent < length (concat bufs)
    → (rest : List Bytes) × (advance_uv_buf sent bufs ≡ ok rest)
      × (concat rest ≡ drop sent (concat bufs))
unfolding advance_uv_buf
advance_uv_buf-drop sent [] h = absurd (omega arith)
advance_uv_buf-drop sent (buf ∷ bufs) h = elim (Bool-cases (ltb sent (length buf))) [
  | inl here ↦ (
    drop sent buf ∷ bufs,
    rw here,
    sym (drop-append_left sent buf (concat bufs) (omega (arith, ltb→lt _ _ here))),
  )
  | inr later ↦
      let (rest, e, f) =
        advance_uv_buf-drop (sent - length buf) bufs
          (omega (arith, length-append buf (concat bufs), not_within later)) in
      (rest, rw later e, f ∙ sym (drop-append_right sent buf (concat bufs) (not_within later)))
]
  where
    not_within : ltb sent (length buf) ≡ false → length buf ≤ sent
    not_within e = ground arith

-- If at least as many bytes were sent as the buffers hold, `advance_uv_buf` raises the
-- `RuntimeError` of the source.
pub advance_uv_buf_past :
    (sent : ℕ) (bufs : List Bytes)
    → length (concat bufs) ≤ sent
    → advance_uv_buf sent bufs ≡ raise runtime_error
unfolding advance_uv_buf
advance_uv_buf_past sent [] h = refl
advance_uv_buf_past sent (buf ∷ bufs) h =
    ground (arith, length-append buf (concat bufs), advance_uv_buf_past (sent - length buf) bufs)
