-- ===== src/Ssl/Forward/Writing.antt =====
-- uvloop/sslproto.pyx: the outgoing flow keeps the order of the states.
use uvloop.Prelude.{
  ℕ, zero, suc, false, not, ◌&&◌, refl, List, [], ◌∷◌, leb, ◌==◌, length, concat, ◌+◌,
}
use uvloop.Errors.{Exception, is_interrupt, is_exception, ssl_error}
use uvloop.Python.{M, Outcome}
use uvloop.Python.Frames.{
  Keeps, Keeps-of, pure-Keeps, throw-Keeps, branch-Keeps, branch_of-Keeps, catch-Keeps, bind-Keeps,
}
use uvloop.Ssl.State.{
  Bytes, Env, Ssl, SslResult, done, again, zero_return, fails, is_ending, is_wrapped, call_do_read,
}
use uvloop.Ssl.Writing.{
  get_write_buffer_size, notify, control_app_writing, control_ssl_reading, process_outgoing,
  take_count, written, write_round, write_rounds, do_write, catch_exception, append_all, write_now,
  write_appdata, resume_reading, pause_writing,
}
use uvloop.Ssl.Forward.{
  ahead, Apart, modify-Ahead, call-Ahead, call_python-Ahead, report-Ahead, call_soon-Ahead,
  fatal_error-Ahead, set_then,
}

module _ {W : Type 0} (env : Env W) where
  pub notify-Ahead : (method : W → Outcome (Unit {0}) × W) → Keeps ahead (notify env method)
  unfolding notify
  notify-Ahead method =
      catch-Keeps ahead (call_python-Ahead method)
        (λ e. branch-Keeps ahead (is_interrupt e) (throw-Keeps ahead e) (report-Ahead e))

  pub control_app_writing-Ahead : Keeps ahead (control_app_writing env)
  unfolding control_app_writing
  control_app_writing-Ahead =
      branch_of-Keeps ahead
        (λ s. leb s.outgoing_high_water (get_write_buffer_size env s) && not s.app_writing_paused)
        (set_then _ (λ t. (refl, refl, refl, refl)) (notify-Ahead env.app_pause_writing))
        (branch_of-Keeps ahead
          (λ s. leb (get_write_buffer_size env s) s.outgoing_low_water && s.app_writing_paused)
          (set_then _ (λ t. (refl, refl, refl, refl)) (notify-Ahead env.app_resume_writing))
          (pure-Keeps ahead tt))

  pub control_ssl_reading-Ahead : Keeps ahead (control_ssl_reading env)
  unfolding control_ssl_reading
  control_ssl_reading-Ahead =
      branch_of-Keeps ahead
        (λ s. leb s.incoming_high_water (env.incoming_pending s.world) && not s.ssl_reading_paused)
        (set_then _ (λ t. (refl, refl, refl, refl)) (call_python-Ahead env.transport_pause_reading))
        (branch_of-Keeps ahead
          (λ s. leb (env.incoming_pending s.world) s.incoming_low_water && s.ssl_reading_paused)
          (set_then _ (λ t. (refl, refl, refl, refl))
            (call_python-Ahead env.transport_resume_reading))
          (pure-Keeps ahead tt))

  pub process_outgoing-Ahead : Keeps ahead (process_outgoing env)
  unfolding process_outgoing
  process_outgoing-Ahead =
      branch_of-Keeps ahead (λ s. s.ssl_writing_paused) (pure-Keeps ahead tt)
        (bind-Keeps ahead (call-Ahead env.outgoing_read) (λ bytes.
          branch-Keeps ahead (length bytes == 0) (pure-Keeps ahead tt)
            (call_python-Ahead (env.transport_write bytes))))

  written-Ahead :
      {next : M (Ssl W) (Unit {0})}
      → Keeps ahead next
      → (bytes : Bytes) (rest : List Bytes) (r : SslResult ℕ)
      → Keeps ahead (written env next bytes rest r)
  unfolding written take_count
  written-Ahead {next} h bytes rest (done count) =
      set_then (take_count env count bytes rest) (λ s. (refl, refl, refl, refl)) h
  written-Ahead h bytes rest again = pure-Keeps ahead tt
  written-Ahead h bytes rest zero_return = throw-Keeps ahead (ssl_error 6)
  written-Ahead h bytes rest (fails e) = throw-Keeps ahead e

  write_round-Ahead :
      {next : M (Ssl W) (Unit {0})}
      → Keeps ahead next
      → (pieces : List Bytes) → Keeps ahead (write_round env next pieces)
  unfolding write_round
  write_round-Ahead h [] = pure-Keeps ahead tt
  write_round-Ahead h (bytes ∷ rest) =
      bind-Keeps ahead (call-Ahead (env.write bytes)) (λ r. written-Ahead h bytes rest r)

  write_rounds-Ahead : (fuel : ℕ) → Keeps ahead (write_rounds env fuel)
  unfolding write_rounds
  write_rounds-Ahead zero = pure-Keeps ahead tt
  write_rounds-Ahead (suc fuel) =
      Keeps-of ahead (write_rounds env (suc fuel))
        (λ s. (write_round-Ahead (write_rounds-Ahead fuel) s.backlog).keeps s)

  pub do_write-Ahead : Keeps ahead (do_write env)
  unfolding do_write
  do_write-Ahead =
      Keeps-of ahead (do_write env)
        (λ s. (write_rounds-Ahead (suc (length (concat s.backlog) + length s.backlog))).keeps s)

  pub catch_exception-Ahead :
      {A : Type 0} {m : M (Ssl W) A} {h : Exception → M (Ssl W) A}
      → Keeps ahead m
      → ((e : Exception) → Keeps ahead (h e))
      → Keeps ahead (catch_exception env m h)
  catch_exception-Ahead p q =
      catch-Keeps ahead p (λ e. branch-Keeps ahead (is_exception e) (q e) (throw-Keeps ahead e))

  append_all-Apart : (pieces : List Bytes) → Apart (append_all env pieces)
  unfolding append_all
  append_all-Apart [] s = (refl, refl, refl, refl)
  append_all-Apart (bytes ∷ more) s = append_all-Apart more _

  write_now-Ahead : Keeps ahead (write_now env)
  unfolding write_now
  write_now-Ahead =
      bind-Keeps ahead do_write-Ahead
        (λ _. bind-Keeps ahead process_outgoing-Ahead (λ _. control_app_writing-Ahead))

  -- A method that reads the state first.
  pub reading :
      {A : Type 0} (m : Ssl W → M (Ssl W) A)
      → ((s : Ssl W) → Keeps ahead (m s))
      → Keeps ahead (λ s. m s s)
  reading m h = Keeps-of ahead (λ s. m s s) (λ s. (h s).keeps s)

  pub write_appdata-Ahead : (pieces : List Bytes) → Keeps ahead (write_appdata env pieces)
  unfolding write_appdata
  write_appdata-Ahead pieces = reading _ (λ s.
      branch-Keeps ahead (is_ending s.state)
        (modify-Ahead (λ t. record t { conn_lost = suc t.conn_lost })
          (λ t. (refl, refl, refl, refl)))
        (set_then (append_all env pieces) (append_all-Apart pieces) (
          catch_exception-Ahead
            (branch-Keeps ahead (is_wrapped s.state) write_now-Ahead (pure-Keeps ahead tt))
            (fatal_error-Ahead env))))

  pub resume_reading-Ahead : Keeps ahead (resume_reading env)
  unfolding resume_reading
  resume_reading-Ahead = reading _ (λ s.
      branch-Keeps ahead s.app_reading_paused
        (set_then (λ t. record t { app_reading_paused = false }) (λ t. (refl, refl, refl, refl))
          (branch-Keeps ahead (is_wrapped s.state) (call_soon-Ahead call_do_read)
            (pure-Keeps ahead tt)))
        (pure-Keeps ahead tt))

  pub pause_writing-Ahead : Keeps ahead (pause_writing env)
  unfolding pause_writing
  pause_writing-Ahead =
      branch_of-Keeps ahead (λ s. s.ssl_writing_paused) (throw-Keeps ahead _)
        (modify-Ahead _ (λ t. (refl, refl, refl, refl)))
