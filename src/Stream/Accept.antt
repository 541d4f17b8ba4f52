-- ===== src/Stream/Accept.antt =====
-- `write` and `writelines`: which bytes the stream accepts, and where they go.
use mathlib.Core.List.{append-nil}
use mathlib.Core.Path.{subst}
use uvloop.Prelude.{
  true, false, not, ◌&&◌, ◌≡◌, sym, ap, ◌∙◌, inl, inr, List, [], ◌++◌, ◌==◌, if◌then◌else◌, arith,
  length, concat, ==→eq,
}
use uvloop.Errors.{runtime_error}
use uvloop.Python.{M, ◌>>◌, pure, throw, branch}
use uvloop.Python.Frames.{Post, branch_state, bind_state}
use uvloop.Stream.State.{count_loss, Bytes, Env, Stream, is_alive, ensure_alive}
use uvloop.Stream.Write.{buffer_write, buffer_all, initiate_write, write, writelines}
use uvloop.Stream.Laws.{Faithful}
use uvloop.Stream.Frame.{is_lost}
use uvloop.Stream.Delivery.{Fate}
use uvloop.Stream.Join.{initiate_write-Fate, Joined, buffer_write-Joined, buffer_all-Joined}

-- What a call of `write(bytes)` accepts for sending: nothing on a closed transport, after
-- `write_eof()`, or once the connection is lost.
abbrev pub taken : {W : Type 0} → Bytes → Stream W → Bytes
taken bytes s = if is_alive s && (not s.eof && s.conn_lost == 0) then bytes else []

module _ {W : Type 0} where
  abbrev Alive : Stream W → Unit {0} → Stream W → Type 0
  Alive s _ t = (t ≡ s) × (is_alive s ≡ true)

  abbrev Dead : Stream W → Stream W → Type 0
  Dead s t = (t ≡ s) × (is_alive s ≡ false)

  ensure_alive-Post : (s : Stream W) → Post (Alive s) (Dead s) (ensure_alive s)
  unfolding ensure_alive
  ensure_alive-Post s = ground arith

  not_lost :
      (s : Stream W)
      → is_alive s ≡ true
      → (s.conn_lost == 0) ≡ true
      → s.wrapped ≡ false
      → is_lost s ≡ false
  unfolding is_alive
  not_lost s a c u = ground arith

  none_taken :
      (bytes : Bytes) (s : Stream W)
      → (is_alive s && (not s.eof && s.conn_lost == 0)) ≡ false
      → taken bytes s ≡ []
  none_taken bytes s h = rw h

  empty_taken : (bytes : Bytes) (s : Stream W) → (length bytes == 0) ≡ true → taken bytes s ≡ []
  empty_taken [] s h = ground arith
  empty_taken bytes s h = absurd (omega (arith, ==→eq _ _ h))

module _ {W : Type 0} (env : Env W) (sent : W → Bytes) (laws : Faithful env sent) where
  module _ (total : Bytes) (s : Stream W) (f : Fate sent total s) (u : s.wrapped ≡ false) where
    refuses :
        (bytes : Bytes) (t : Stream W)
        → taken bytes s ≡ []
        → Fate sent total t
        → Fate sent (total ++ taken bytes s) t
    refuses bytes t e g =
        subst (λ (x : Bytes). Fate sent x t) (sym (ap (◌++◌ total) e ∙ append-nil total)) g

    drops : Fate sent total (count_loss s).1
    drops = record {
      rest = f.rest;
      split = f.split;
      kept = elim f.kept [ inl e ↦ inl e | inr e ↦ inr (ground arith) ];
      sized = f.sized;
      started = f.started;
    }

    -- The common part of `write` and `writelines`, after `_ensure_alive()`.
    accepts :
        (bytes : Bytes) (buffering : M (Stream W) (Unit {0}))
        → is_alive s ≡ true
        → (is_lost s ≡ false
            → Post (λ _ t. Joined env sent laws (total ++ bytes) t) (λ _. ⊥) (buffering s))
        → s.eof ≡ false
        → Fate sent
            (total ++ taken bytes s)
            (branch (s.conn_lost == 0) (buffering >> initiate_write env) count_loss s).1
    accepts bytes buffering alive buffered open_end =
        branch_state (Fate sent (total ++ taken bytes s)) (s.conn_lost == 0)
          (buffering >> initiate_write env) count_loss s
          (λ c.
            bind_state (λ _ t. Joined env sent laws (total ++ bytes) t) (λ _. ⊥)
              (Fate sent (total ++ taken bytes s)) (buffering s) (λ _. initiate_write env)
              (buffered (not_lost s alive c u))
              (λ _ t j.
                subst (λ (x : Bytes). Fate sent (total ++ x) (initiate_write env t).1)
                  (sym (rw (alive, open_end, c)))
                  (initiate_write-Fate env sent laws (total ++ bytes) t j.0))
              (λ t e. absurd e))
          (λ c. refuses bytes _ (none_taken bytes s (rw (alive, open_end, c))) drops)

    -- Over a system that is `Faithful`, with a protocol that writes nothing in `pause_writing` and
    -- `resume_writing`, while the counter `_conn_lost` has not wrapped round: `write(bytes)`
    -- accepts all of `bytes`, or nothing if the transport is closed, at its end, or has lost the
    -- connection. If the bytes accepted before it are those sent, those in the buffer and those
    -- given up with the connection, in order, and `_buffer_size` is right, then after it the same
    -- holds of these bytes and those it accepts.
    pub write-Fate : (bytes : Bytes) → Fate sent (total ++ taken bytes s) (write env bytes s).1
    unfolding write
    write-Fate bytes =
        bind_state (Alive s) (Dead s) (Fate sent (total ++ taken bytes s)) (ensure_alive s)
          (λ _. body) (ensure_alive-Post s)
          (λ _ t a.
            subst (λ u. Fate sent (total ++ taken bytes s) (body u).1) (sym a.0) (opened a.1))
          (λ t d. refuses bytes t (none_taken bytes s (rw d.1)) (rw d.0 f))
      where
        body : M (Stream W) (Unit {0})
        body t =
            branch t.eof (throw runtime_error)
              (branch (length bytes == 0) (pure tt) (
                branch (t.conn_lost == 0) (do buffer_write env bytes; initiate_write env)
                  count_loss))
              t

        opened : is_alive s ≡ true → Fate sent (total ++ taken bytes s) (body s).1
        opened alive =
            branch_state (Fate sent (total ++ taken bytes s)) s.eof (throw runtime_error)
              (branch (length bytes == 0) (pure tt) (
                branch (s.conn_lost == 0) (do buffer_write env bytes; initiate_write env)
                  count_loss))
              s (λ e. refuses bytes s (none_taken bytes s (rw (alive, e))) f)
              (λ e.
                branch_state (Fate sent (total ++ taken bytes s)) (length bytes == 0) (pure tt)
                  (branch (s.conn_lost == 0) (do buffer_write env bytes; initiate_write env)
                    count_loss)
                  s (λ z. refuses bytes s (empty_taken bytes s z) f)
                  (λ _.
                    accepts bytes (buffer_write env bytes) alive
                      (λ l. buffer_write-Joined env sent laws total bytes s l f) e))

    -- Over a system that is `Faithful`, with a protocol that writes nothing in `pause_writing` and
    -- `resume_writing`, while the counter `_conn_lost` has not wrapped round: `writelines(bufs)`
    -- accepts all bytes of `bufs`, or nothing if the transport is closed, at its end, or has lost
    -- the connection. If the bytes accepted before it are those sent, those in the buffer and those
    -- given up with the connection, in order, and `_buffer_size` is right, then after it the same
    -- holds of these bytes and those it accepts.
    pub writelines-Fate :
        (bufs : List Bytes) → Fate sent (total ++ taken (concat bufs) s) (writelines env bufs s).1
    unfolding writelines
    writelines-Fate bufs =
        bind_state (Alive s) (Dead s) (Fate sent (total ++ taken (concat bufs) s)) (ensure_alive s)
          (λ _. body) (ensure_alive-Post s)
          (λ _ t a.
            subst (λ u. Fate sent (total ++ taken (concat bufs) s) (body u).1) (sym a.0)
              (opened a.1))
          (λ t d. refuses (concat bufs) t (none_taken (concat bufs) s (rw d.1)) (rw d.0 f))
      where
        body : M (Stream W) (Unit {0})
        body t =
            branch t.eof (throw runtime_error)
              (branch (t.conn_lost == 0) (do buffer_all env bufs; initiate_write env) count_loss) t

        opened : is_alive s ≡ true → Fate sent (total ++ taken (concat bufs) s) (body s).1
        opened alive =
            branch_state (Fate sent (total ++ taken (concat bufs) s)) s.eof (throw runtime_error)
              (branch (s.conn_lost == 0) (do buffer_all env bufs; initiate_write env) count_loss) s
              (λ e. refuses (concat bufs) s (none_taken (concat bufs) s (rw (alive, e))) f)
              (λ e.
                accepts (concat bufs) (buffer_all env bufs) alive
                  (λ l. buffer_all-Joined env sent laws total bufs s l f) e)
