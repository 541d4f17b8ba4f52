-- ===== src/Ssl/Backlog.antt =====
-- uvloop/sslproto.pyx: what `_do_write` does to the write backlog.
use mathlib.Core.List.{append_assoc}
use uvloop.Prelude.{
  ℕ, zero, suc, ◌+◌, ◌⊎◌, ◌≤◌, ◌<◌, ◌≡◌, refl, sym, ap, ◌∙◌, true, false, List, [], ◌∷◌, ◌++◌, ltb,
  length, take, drop, concat, arith, take-append-drop, take_all, length-append, length-drop,
  Bool-cases, inl, inr, ltb→lt,
}
use uvloop.Python.{M, Outcome, ok}
use uvloop.Ssl.State.{Bytes, Env, Ssl, SslResult, done, again, zero_return, fails}
use uvloop.Ssl.Writing.{take_count, written, write_round, write_rounds, do_write}

-- A write of `bytes` at `w` by the `SSLObject`: a count is the length of a prefix that it took.
abbrev pub Takes : {W : Type 0} → (W → Bytes) → Bytes → W → SslResult ℕ × W → Type 0
Takes taken bytes w (done n, w') = (n ≤ length bytes) × (taken w' ≡ taken w ++ take n bytes)
Takes taken bytes w (again, w') = taken w' ≡ taken w
Takes taken bytes w (zero_return, w') = taken w' ≡ taken w
Takes taken bytes w (fails e, w') = taken w' ≡ taken w

-- `total` are the bytes that the `SSLObject` took and then those of the backlog, and the counter
-- `_write_buffer_size` is right.
pub record Whole {W : Type 0} (taken : W → Bytes) (total : Bytes) (s : Ssl W) : Type 0 where
  pub split : taken s.world ++ concat s.backlog ≡ total
  pub sized : s.write_buffer_size ≡ length (concat s.backlog)

rejoined : (n : ℕ) (xs ys : Bytes) → take n xs ++ (drop n xs ++ ys) ≡ xs ++ ys
rejoined n xs ys =
    sym (append_assoc (take n xs) (drop n xs) ys) ∙ ap (λ l. l ++ ys) (take-append-drop n xs)

not_less : (m n : ℕ) → ltb m n ≡ false → n ≤ m
not_less m n h = ground arith

module _ {W : Type 0} (env : Env W) (taken : W → Bytes) (total : Bytes) where
  take_count-Whole :
      (s : Ssl W) (w : W) (count : ℕ) (bytes : Bytes) (rest : List Bytes)
      → taken s.world ++ (bytes ++ concat rest) ≡ total
      → s.write_buffer_size ≡ length (bytes ++ concat rest)
      → count ≤ length bytes
      → taken w ≡ taken s.world ++ take count bytes
      → Whole taken total (take_count env count bytes rest (record s { world = w }))
  unfolding take_count
  take_count-Whole s w count bytes rest a b n e = elim (Bool-cases (ltb count (length bytes))) [
    | inl some_left ↦ record {
      split =
          rw (some_left, e)
            (append_assoc (taken s.world) (take count bytes) (drop count bytes ++ concat rest)
              ∙ ap (◌++◌ (taken s.world)) (rejoined count bytes (concat rest))
              ∙ a);
      sized = rw some_left (
          omega (
            arith,
            b,
            n,
            length-append bytes (concat rest),
            length-append (drop count bytes) (concat rest),
            length-drop count bytes,
          ));
    }
    | inr all_gone ↦ record {
      split =
          rw (all_gone, e, take_all count bytes (not_less count (length bytes) all_gone))
            (append_assoc (taken s.world) bytes (concat rest) ∙ a);
      sized = rw all_gone (omega (arith, b, length-append bytes (concat rest)));
    }
  ]

  written-Whole :
      (next : M (Ssl W) (Unit {0}))
      → ((s : Ssl W) → Whole taken total s → Whole taken total (next s).1)
      → (s : Ssl W) (bytes : Bytes) (rest : List Bytes) (r : SslResult ℕ × W)
      → s.backlog ≡ bytes ∷ rest
      → Takes taken bytes s.world r
      → Whole taken total s
      → Whole taken total (written env next bytes rest r.0 (record s { world = r.1 })).1
  unfolding written
  written-Whole next h s bytes rest (done n, w) b t p = h _ (
      take_count-Whole s w n bytes rest (ap (λ l. taken s.world ++ concat l) (sym b) ∙ p.split)
        (p.sized ∙ ap (λ l. length (concat l)) b) t.0 t.1)
  written-Whole next h s bytes rest (again, w) b t p = record {
    split = rw t p.split;
    sized = p.sized;
  }
  written-Whole next h s bytes rest (zero_return, w) b t p = record {
    split = rw t p.split;
    sized = p.sized;
  }
  written-Whole next h s bytes rest (fails e, w) b t p = record {
    split = rw t p.split;
    sized = p.sized;
  }

  module _ (law : (bytes : Bytes) (w : W) → Takes taken bytes w (env.write bytes w)) where
    write_round-Whole :
        (next : M (Ssl W) (Unit {0}))
        → ((s : Ssl W) → Whole taken total s → Whole taken total (next s).1)
        → (s : Ssl W) (pieces : List Bytes) → s.backlog ≡ pieces
        → Whole taken total s
        → Whole taken total (write_round env next pieces s).1
    unfolding write_round
    write_round-Whole next h s [] b p = p
    write_round-Whole next h s (bytes ∷ rest) b p =
        written-Whole next h s bytes rest (env.write bytes s.world) b (law bytes s.world) p

    write_rounds-Whole :
        (fuel : ℕ) (s : Ssl W) → Whole taken total s → Whole taken total (write_rounds env fuel s).1
    unfolding write_rounds
    write_rounds-Whole zero s p = p
    write_rounds-Whole (suc fuel) s p =
        write_round-Whole (write_rounds env fuel) (write_rounds-Whole fuel) s s.backlog refl p

module _ {W : Type 0} (env : Env W) (taken : W → Bytes)
    (law : (bytes : Bytes) (w : W) → Takes taken bytes w (env.write bytes w)) where
  -- Over an `SSLObject` whose counts are lengths of prefixes that it took: where
  -- `_write_buffer_size` is the number of bytes in the backlog, `_do_write` moves bytes from the
  -- front of the backlog into the `SSLObject` and neither loses nor reorders any, whether it
  -- returns or raises, and `_write_buffer_size` is the number of bytes in the backlog after it.
  pub do_write-Whole :
      (s : Ssl W)
      → s.write_buffer_size ≡ length (concat s.backlog)
      → Whole taken (taken s.world ++ concat s.backlog) (do_write env s).1
  unfolding do_write
  do_write-Whole s b =
      write_rounds-Whole env taken (taken s.world ++ concat s.backlog) law
        (suc (length (concat s.backlog) + length s.backlog)) s (record { split = refl; sized = b })

-- What is left to do.
abbrev measure : List Bytes → ℕ
measure pieces = length (concat pieces) + length pieces

-- An `SSLObject` that takes something of every piece that is not empty.
abbrev pub Eager : {W : Type 0} → Env W → Type 0
Eager {W} env =
    (bytes : Bytes) (w : W)
    → (n : ℕ) × (((env.write bytes w).0 ≡ done n) × ((length bytes ≡ 0) ⊎ (0 < n)))

module _ {W : Type 0} (env : Env W) where
  abbrev Drained : Outcome (Unit {0}) × Ssl W → Type 0
  Drained r = (r.0 ≡ ok tt) × (r.1.backlog ≡ [])

  shrinks :
      (n : ℕ) (bytes : Bytes) (rest : List Bytes) (s : Ssl W)
      → (length bytes ≡ 0) ⊎ (0 < n)
      → measure (take_count env n bytes rest s).backlog < measure (bytes ∷ rest)
  unfolding take_count
  shrinks n bytes rest s h = elim (Bool-cases (ltb n (length bytes))) [
    | inl e ↦ rw e (
        omega (
          arith,
          positive h e,
          length-append bytes (concat rest),
          length-append (drop n bytes) (concat rest),
          length-drop n bytes,
          ltb→lt _ _ e,
        ))
    | inr e ↦ rw e (omega (arith, length-append bytes (concat rest)))
  ]
    where
      positive : (length bytes ≡ 0) ⊎ (0 < n) → ltb n (length bytes) ≡ true → 0 < n
      positive (inl z) e = absurd (omega (arith, z, ltb→lt _ _ e))
      positive (inr p) e = p

  module _ (eager : Eager env) where
    round_drains :
        (fuel : ℕ) (next : M (Ssl W) (Unit {0}))
        → ((s : Ssl W) → measure s.backlog < fuel → Drained (next s))
        → (s : Ssl W) (pieces : List Bytes) → s.backlog ≡ pieces
        → measure pieces < suc fuel
        → Drained (write_round env next pieces s)
    unfolding write_round written
    round_drains fuel next h s [] b m = (refl, b)
    round_drains fuel next h s (bytes ∷ rest) b m =
        let (n, (e, some_taken)) = eager bytes s.world in
        rw e (
          h _ (
            omega (
              arith,
              m,
              shrinks n bytes rest (record s { world = (env.write bytes s.world).1 }) some_taken,
            )))

    rounds_drain :
        (fuel : ℕ) (s : Ssl W) → measure s.backlog < fuel → Drained (write_rounds env fuel s)
    unfolding write_rounds
    rounds_drain zero s m = absurd (omega arith)
    rounds_drain (suc fuel) s m =
        round_drains fuel (write_rounds env fuel) (rounds_drain fuel) s s.backlog refl m

    -- If the `SSLObject` takes at least one byte of every piece that is not empty, `_do_write`
    -- returns, with an empty backlog.
    pub do_write_drains :
        (s : Ssl W) → ((do_write env s).0 ≡ ok tt) × ((do_write env s).1.backlog ≡ [])
    unfolding do_write
    do_write_drains s =
        rounds_drain (suc (length (concat s.backlog) + length s.backlog)) s (omega arith)
