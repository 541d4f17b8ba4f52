-- ===== src/Ssl/Forward.antt =====
-- uvloop/sslproto.pyx: once a connection is up, the state of `SSLProtocol` only moves forward.
pub mod Writing
pub mod Closing
pub mod Loss
pub mod Handshake
use uvloop.Prelude.{
  ℕ, ◌≤◌, ◌≡◌, ◌≢◌, refl, Bool-cases, inl, inr, Bool, true, false, Option, none, some, arith, List,
  ◌&&◌, not, leb, ◌||◌, ◌==◌, length,
}
use uvloop.Errors.{Exception, is_os_error}
use uvloop.Python.{M, Outcome, ok, raise, ◌>>=◌, ◌>>◌, pure, throw, modify, branch, get_state}
use uvloop.Python.Frames.{
  Frame, Keeps, Keeps-of, pure-Keeps, throw-Keeps, get_state-Keeps, branch-Keeps, branch_of-Keeps,
  catch-Keeps, bind-Keeps,
}
use uvloop.Ssl.State.{
  Bytes, SslState, unwrapped, do_handshake, wrapped, flushing, shutdown, AppState, init, con_made,
  eof, con_lost, Env, Ssl, call, call_python, report, call_soon, Scheduled, allowed, set_state,
  abort, app_force_close, report_fatal, fatal_error,
}

-- The order in which a connection goes through the states of the machine.
unfoldable pub rank : SslState → ℕ
rank do_handshake = 0
rank wrapped = 1
rank flushing = 2
rank shutdown = 3
rank unwrapped = 4

-- The order of the application's states.
unfoldable pub app_rank : AppState → ℕ
app_rank init = 0
app_rank con_made = 1
app_rank eof = 2
app_rank con_lost = 3

-- How often `eof_received` may have been called, and `connection_lost` scheduled, in a state.
unfoldable pub eofs_of : AppState → ℕ
eofs_of init = 0
eofs_of con_made = 0
eofs_of eof = 1
eofs_of con_lost = 1

unfoldable pub losts_of : AppState → ℕ
losts_of con_lost = 1
losts_of _ = 0

pub allowed-rank : (a b : SslState) → b ≢ do_handshake → allowed a b ≡ true → rank a ≤ rank b
unfolding allowed rank
allowed-rank unwrapped unwrapped n h = omega arith
allowed-rank unwrapped do_handshake n h = absurd (n refl)
allowed-rank _ _ n h = ground arith

module _ {W : Type 0} where
  pub record Counted (s : Ssl W) : Type 0 where
    pub eofs : s.eof_calls ≤ eofs_of s.app_state
    pub losts : s.lost_calls ≡ losts_of s.app_state

  -- The machine moves forward or ends, the application's state moves forward, and the counts of the
  -- application's callbacks stay right.
  pub record Ahead (s t : Ssl W) : Type 0 where
    pub state : rank s.state ≤ rank t.state
    pub app : app_rank s.app_state ≤ app_rank t.app_state
    pub counted : Counted s → Counted t

  pub Ahead-refl : (s : Ssl W) → Ahead s s
  Ahead-refl s = record { state = omega arith; app = omega arith; counted = λ c. c }

  pub Ahead-trans : (s t u : Ssl W) → Ahead s t → Ahead t u → Ahead s u
  Ahead-trans s t u p q = record {
    state = omega (arith, p.state, q.state);
    app = omega (arith, p.app, q.app);
    counted = λ c. q.counted (p.counted c);
  }

  abbrev pub ahead : Frame (Ssl W)
  ahead = record { Rel = Ahead; stay = Ahead-refl; both = Ahead-trans }

  -- A change that leaves the two states and the counts alone.
  abbrev pub Apart : (Ssl W → Ssl W) → Type 0
  Apart f =
      (s : Ssl W)
      → ((f s).state ≡ s.state)
        × ((f s).app_state ≡ s.app_state)
        × ((f s).eof_calls ≡ s.eof_calls)
        × ((f s).lost_calls ≡ s.lost_calls)

  pub Ahead-of :
      (s t : Ssl W)
      → t.state ≡ s.state
      → t.app_state ≡ s.app_state
      → t.eof_calls ≡ s.eof_calls
      → t.lost_calls ≡ s.lost_calls
      → Ahead s t
  Ahead-of s t a b c d = record {
    state = rw a (omega arith);
    app = rw b (omega arith);
    counted = λ h. record { eofs = rw (c, b) h.eofs; losts = rw (d, b) h.losts };
  }

  pub modify-Ahead : (f : Ssl W → Ssl W) → Apart f → Keeps ahead (modify f)
  modify-Ahead f h =
      Keeps-of ahead (modify f) (λ s. Ahead-of s (f s) (h s).0 (h s).1 (h s).2 (h s).3)

  -- A flag is set, and then something else is done.
  pub set_then :
      {A : Type 0} (f : Ssl W → Ssl W) {m : M (Ssl W) A}
      → Apart f
      → Keeps ahead m
      → Keeps ahead (modify f >>= λ _. m)
  set_then f h k = bind-Keeps ahead (modify-Ahead f h) (λ _. k)

  pub call-Ahead : {A : Type 0} (f : W → A × W) → Keeps ahead (call f)
  call-Ahead f = Keeps-of ahead (call f) (λ s. Ahead-of s (call f s).1 refl refl refl refl)

  pub call_python-Ahead : {A : Type 0} (f : W → Outcome A × W) → Keeps ahead (call_python f)
  call_python-Ahead f =
      Keeps-of ahead (call_python f) (λ s. Ahead-of s (call_python f s).1 refl refl refl refl)

  pub report-Ahead : (e : Exception) → Keeps ahead (report e)
  report-Ahead e = modify-Ahead _ (λ s. (refl, refl, refl, refl))

  pub call_soon-Ahead : (c : Scheduled) → Keeps ahead (call_soon c)
  call_soon-Ahead c = modify-Ahead _ (λ s. (refl, refl, refl, refl))

  -- The guard of `_set_state`: but for the start of a handshake it lets the machine move forward
  -- only.
  pub set_state-Ahead : (b : SslState) → b ≢ do_handshake → Keeps ahead (set_state {W = W} b)
  unfolding set_state
  set_state-Ahead b n = Keeps-of ahead (set_state b) λ s. elim (Bool-cases (allowed s.state b)) [
    | inl e ↦
        rw (e, set_state)
          (record {
            state = allowed-rank s.state b n e;
            app = omega arith;
            counted = λ c. record { eofs = c.eofs; losts = c.losts };
          })
    | inr e ↦ rw (e, set_state) (Ahead-refl s)
  ]

module _ {W : Type 0} (env : Env W) where
  pub abort-Ahead : (exc : Option Exception) → Keeps ahead (abort env exc)
  unfolding abort
  abort-Ahead exc = bind-Keeps ahead (set_state-Ahead unwrapped (λ e. cc)) (λ _.
      bind-Keeps ahead (get_state-Keeps ahead) (λ s.
        branch-Keeps ahead s.transport (call_python-Ahead (env.transport_force_close exc))
          (pure-Keeps ahead tt)))

  pub report_fatal-Ahead : (exc : Exception) → Keeps ahead (report_fatal env exc)
  unfolding report_fatal
  report_fatal-Ahead Exception.cancelled_error = pure-Keeps ahead tt
  report_fatal-Ahead exc =
      branch-Keeps ahead (is_os_error exc) (pure-Keeps ahead tt) (report-Ahead exc)

  app_force_close-Ahead : (exc : Option Exception) → Keeps ahead (app_force_close env exc)
  unfolding app_force_close
  app_force_close-Ahead exc = set_then _ (λ t. (refl, refl, refl, refl)) (abort-Ahead exc)

  pub fatal_error-Ahead : (exc : Exception) → Keeps ahead (fatal_error env exc)
  unfolding fatal_error
  fatal_error-Ahead exc = bind-Keeps ahead (get_state-Keeps ahead) (λ s.
      bind-Keeps ahead
        (branch-Keeps ahead s.app_transport (app_force_close-Ahead (some exc)) (
          branch-Keeps ahead s.transport (call_python-Ahead (env.transport_force_close (some exc)))
            (pure-Keeps ahead tt)))
        (λ _. report_fatal-Ahead exc))
