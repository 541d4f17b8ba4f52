-- ===== src/Polls/Watching.antt =====
-- uvloop/loop.pyx: requests for readers and writers, and a plain table that answers them.
use uvloop.Prelude.{ℕ, Bool, true, List, [], ◌∷◌, Option, none, some, is_some, pos, negsuc, ℤ}
use uvloop.Errors.{Exception, value_error}
use uvloop.Python.{M, Outcome, ok, raise}
use uvloop.Polls.{
  FileObj, fd_int, file, PollEnv, Polls, PollAction, adds_reader, adds_writer, removes_reader,
  removes_writer, update, has_reader, has_writer,
}
use uvloop.Polls.Table.{cancel_one}
use uvloop.Polls.Methods.{act}

-- What is asked of the loop.
pub data Request : Type 0 where
  does : PollAction → Request
  asks_reader asks_writer : FileObj → Request

-- The readers and writers of descriptors, the handles that are cancelled, and which descriptors
-- are refused, with what exception.
pub record Watching : Type 0 where
  pub readers : ℕ → Option ℕ
  pub writers : ℕ → Option ℕ
  pub cancelled : ℕ → Bool
  pub refuses : ℕ → Option Exception

abbrev pub set_reader : ℕ → Option ℕ → Watching → Watching
set_reader fd o v = record v {
  readers = update v.readers fd o;
  cancelled = cancel_one (v.readers fd) v.cancelled;
}

abbrev pub set_writer : ℕ → Option ℕ → Watching → Watching
set_writer fd o v = record v {
  writers = update v.writers fd o;
  cancelled = cancel_one (v.writers fd) v.cancelled;
}

-- The descriptor of a file object, where `num` gives that of each object.
abbrev pub descriptor_of : (ℕ → ℤ) → FileObj → ℤ
descriptor_of num (fd_int n) = n
descriptor_of num (file o) = num o

-- A negative descriptor is a `ValueError`.
abbrev pub at_descriptor :
    {A : Type 0} → ℤ → Watching → (ℕ → Outcome A × Watching) → Outcome A × Watching
at_descriptor (pos fd) v k = k fd
at_descriptor (negsuc n) v k = (raise value_error, v)

-- A handle is set only at a descriptor that is not refused.
abbrev pub if_usable :
    {A : Type 0} → Option Exception → Watching → Outcome A × Watching → Outcome A × Watching
if_usable none v r = r
if_usable (some e) v r = (raise e, v)

unfoldable pub answer : (ℕ → ℤ) → Request → Watching → Outcome Bool × Watching
answer num (does (adds_reader f h)) v =
    at_descriptor (descriptor_of num f) v
      (λ fd. if_usable (v.refuses fd) v (ok true, set_reader fd (some h) v))
answer num (does (adds_writer f h)) v =
    at_descriptor (descriptor_of num f) v
      (λ fd. if_usable (v.refuses fd) v (ok true, set_writer fd (some h) v))
answer num (does (removes_reader f)) v =
    at_descriptor (descriptor_of num f) v
      (λ fd. (ok (is_some (v.readers fd)), set_reader fd none v))
answer num (does (removes_writer f)) v =
    at_descriptor (descriptor_of num f) v
      (λ fd. (ok (is_some (v.writers fd)), set_writer fd none v))
answer num (asks_reader f) v =
    at_descriptor (descriptor_of num f) v (λ fd. (ok (is_some (v.readers fd)), v))
answer num (asks_writer f) v =
    at_descriptor (descriptor_of num f) v (λ fd. (ok (is_some (v.writers fd)), v))

-- The answers to a sequence of requests, and the table that they leave.
unfoldable pub answers : (ℕ → ℤ) → List Request → Watching → List (Outcome Bool) × Watching
unfolding answer
answers num [] v = ([], v)
answers num (q ∷ qs) v =
    let r = answer num q v in let rest = answers num qs r.1 in (r.0 ∷ rest.0, rest.1)

module _ {W : Type 0} (env : PollEnv W) (run_handle : ℕ → M (Polls W) (Unit {0}))
    (handle_exception : Exception → M (Polls W) (Unit {0})) where
  unfoldable pub ask : Request → M (Polls W) Bool
  unfolding act
  ask (does action) = act env run_handle handle_exception action
  ask (asks_reader fileobj) = has_reader env fileobj
  ask (asks_writer fileobj) = has_writer env fileobj

  -- The outcomes of a sequence of requests, each made whatever came of the ones before.
  unfoldable pub ask_all : List Request → Polls W → List (Outcome Bool) × Polls W
  unfolding ask
  ask_all [] s = ([], s)
  ask_all (q ∷ qs) s = let r = ask q s in let rest = ask_all qs r.1 in (r.0 ∷ rest.0, rest.1)
