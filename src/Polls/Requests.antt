-- ===== src/Polls/Requests.antt =====
-- uvloop/loop.pyx: `_has_reader`, `_has_writer`, and sequences of requests against the table.
use uvloop.Prelude.{
  ℕ, ◌≡◌, refl, sym, ap, ◌∙◌, Bool, true, false, pos, negsuc, ℤ, ◌&&◌, List, [], ◌∷◌, Option, none,
  some, is_some, lookup,
}
use uvloop.Errors.{Exception}
use uvloop.Python.{M, Outcome, ok, pure}
use uvloop.Polls.{
  FileObj, PollEnv, Polls, adds_reader, adds_writer, removes_reader, removes_writer, check_closed,
  has_reader, has_writer,
}
use uvloop.Polls.Table.{reading_of, writing_of}
use uvloop.Polls.Finding.{Accepting, trouble}
use uvloop.Polls.Asking.{check_closed_lem, with_descriptor}
use uvloop.Polls.Watching.{
  Request, does, asks_reader, asks_writer, Watching, set_reader, set_writer, descriptor_of,
  at_descriptor, if_usable, answer, answers, ask, ask_all,
}
use uvloop.Polls.Registry.{Shows, Does, Does-bind}
use uvloop.Polls.Adding.{adds_reader_lem, adds_writer_lem}
use uvloop.Polls.Removing.{removes_reader_lem, removes_writer_lem}

-- No request changes which descriptors are refused.
at_refuses :
    {A : Type 0} (n : ℤ) (v : Watching) (k : ℕ → Outcome A × Watching)
    → ((fd : ℕ) → (k fd).1.refuses ≡ v.refuses)
    → (at_descriptor n v k).1.refuses ≡ v.refuses
at_refuses (pos fd) v k e = e fd
at_refuses (negsuc n) v k e = refl

if_refuses :
    {A : Type 0} (o : Option Exception) (v : Watching) (r : Outcome A × Watching)
    → r.1.refuses ≡ v.refuses
    → (if_usable o v r).1.refuses ≡ v.refuses
if_refuses none v r e = e
if_refuses (some x) v r e = refl

refuses_lem : (num : ℕ → ℤ) (q : Request) (v : Watching) → (answer num q v).1.refuses ≡ v.refuses
unfolding answer
refuses_lem num (does (adds_reader f h)) v =
    at_refuses (descriptor_of num f) v _
      (λ fd. if_refuses (v.refuses fd) v (ok true, set_reader fd (some h) v) refl)
refuses_lem num (does (adds_writer f h)) v =
    at_refuses (descriptor_of num f) v _
      (λ fd. if_refuses (v.refuses fd) v (ok true, set_writer fd (some h) v) refl)
refuses_lem num (does (removes_reader f)) v =
    at_refuses (descriptor_of num f) v (λ fd. (ok (is_some (v.readers fd)), set_reader fd none v))
      (λ fd. refl)
refuses_lem num (does (removes_writer f)) v =
    at_refuses (descriptor_of num f) v (λ fd. (ok (is_some (v.writers fd)), set_writer fd none v))
      (λ fd. refl)
refuses_lem num (asks_reader f) v =
    at_refuses (descriptor_of num f) v (λ fd. (ok (is_some (v.readers fd)), v)) (λ fd. refl)
refuses_lem num (asks_writer f) v =
    at_refuses (descriptor_of num f) v (λ fd. (ok (is_some (v.writers fd)), v)) (λ fd. refl)

module _ {W : Type 0} (env : PollEnv W) (run_handle : ℕ → M (Polls W) (Unit {0}))
    (handle_exception : Exception → M (Polls W) (Unit {0})) (a : Accepting env) where
  asks_reader_lem :
      (f : FileObj) (s : Polls W) (v : Watching)
      → Shows s v
      → Does
          (answer a.descriptor (asks_reader f) v).0
          (answer a.descriptor (asks_reader f) v).1
          (ask env run_handle handle_exception (asks_reader f) s)
  unfolding ask has_reader answer
  asks_reader_lem f s v d =
      Does-bind tt _ v _ _ (check_closed s) (check_closed_lem env a s v d) (λ t x.
        with_descriptor env a f t v _ (λ fd. (ok (is_some (v.readers fd)), v)) x
          (λ fd t x. go fd t x (lookup fd t.polls) refl))
    where
      go :
          (fd : ℕ) (t : Polls W) (x : Shows t v) (l : Option ℕ)
          → lookup fd t.polls ≡ l
          → Does (ok (is_some (v.readers fd))) v (
              (elim l as (λ x. M (Polls W) Bool) [
                | none ↦ pure false
                | some i ↦ pure ((t.objects i).alive && is_some (t.objects i).reading_handle)
              ])
                t)
      go fd t x none l = record {
        returns = ap (λ o. ok (is_some o)) (sym (ap (reading_of t.objects) l) ∙ x.reader fd);
        shows = x;
      }
      go fd t x (some i) l = record {
        returns =
            ap (λ b. ok (b && is_some (t.objects i).reading_handle)) (x.tidy.alive fd i l)
            ∙ ap (λ o. ok (is_some o)) (sym (ap (reading_of t.objects) l) ∙ x.reader fd);
        shows = x;
      }

  asks_writer_lem :
      (f : FileObj) (s : Polls W) (v : Watching)
      → Shows s v
      → Does
          (answer a.descriptor (asks_writer f) v).0
          (answer a.descriptor (asks_writer f) v).1
          (ask env run_handle handle_exception (asks_writer f) s)
  unfolding ask has_writer answer
  asks_writer_lem f s v d =
      Does-bind tt _ v _ _ (check_closed s) (check_closed_lem env a s v d) (λ t x.
        with_descriptor env a f t v _ (λ fd. (ok (is_some (v.writers fd)), v)) x
          (λ fd t x. go fd t x (lookup fd t.polls) refl))
    where
      go :
          (fd : ℕ) (t : Polls W) (x : Shows t v) (l : Option ℕ)
          → lookup fd t.polls ≡ l
          → Does (ok (is_some (v.writers fd))) v (
              (elim l as (λ x. M (Polls W) Bool) [
                | none ↦ pure false
                | some i ↦ pure ((t.objects i).alive && is_some (t.objects i).writing_handle)
              ])
                t)
      go fd t x none l = record {
        returns = ap (λ o. ok (is_some o)) (sym (ap (writing_of t.objects) l) ∙ x.writer fd);
        shows = x;
      }
      go fd t x (some i) l = record {
        returns =
            ap (λ b. ok (b && is_some (t.objects i).writing_handle)) (x.tidy.alive fd i l)
            ∙ ap (λ o. ok (is_some o)) (sym (ap (writing_of t.objects) l) ∙ x.writer fd);
        shows = x;
      }

  answer_lem :
      (q : Request) (s : Polls W) (v : Watching)
      → Shows s v
      → ((m : ℕ) → v.refuses m ≡ trouble env a m)
      → Does
          (answer a.descriptor q v).0
          (answer a.descriptor q v).1
          (ask env run_handle handle_exception q s)
  answer_lem (does (adds_reader f h)) s v d u =
      adds_reader_lem env run_handle handle_exception a f h s v d u
  answer_lem (does (adds_writer f h)) s v d u =
      adds_writer_lem env run_handle handle_exception a f h s v d u
  answer_lem (does (removes_reader f)) s v d u =
      removes_reader_lem env run_handle handle_exception a f s v d
  answer_lem (does (removes_writer f)) s v d u =
      removes_writer_lem env run_handle handle_exception a f s v d
  answer_lem (asks_reader f) s v d u = asks_reader_lem f s v d
  answer_lem (asks_writer f) s v d u = asks_writer_lem f s v d

  -- Where no transport uses a descriptor, every object with `fileno` has a number, libuv accepts or
  -- refuses a descriptor for good and watches what it accepted, from an open loop in which each
  -- entry of `_polls` is the `UVPoll` of its descriptor, not closed, and no refused descriptor has
  -- one: any sequence of calls that add, remove and ask for readers and writers has the outcomes
  -- that a plain table from descriptors to handles gives. There a negative descriptor is a
  -- `ValueError`; to add a handle at one that does not fit a C `int` is an `OverflowError`, and at
  -- one that libuv refuses the exception for its error, and changes nothing. It leaves such a loop
  -- with that table, in which a handle is cancelled exactly if it was before, or was replaced or
  -- removed.
  pub answers_lem :
      (qs : List Request) (s : Polls W) (v : Watching)
      → Shows s v
      → ((m : ℕ) → v.refuses m ≡ trouble env a m)
      → ((ask_all env run_handle handle_exception qs s).0 ≡ (answers a.descriptor qs v).0)
        × Shows (ask_all env run_handle handle_exception qs s).1 (answers a.descriptor qs v).1
  unfolding ask_all answers
  answers_lem [] s v d u = (refl, d)
  answers_lem (q ∷ qs) s v d u =
      let x = answer_lem q s v d u in
      let rest =
        answers_lem qs (ask env run_handle handle_exception q s).1 (answer a.descriptor q v).1
          x.shows (λ m. ap (λ f. f m) (refuses_lem a.descriptor q v) ∙ u m) in
      (cc (x.returns, rest.0), rest.1)
