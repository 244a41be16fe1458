-- ===== src/System/Pipe.antt =====
-- A system that meets the assumptions, and runs: one connection whose peer has sent `input` and
-- which takes every write, with an allocator that never fails. Reads give three bytes at most, so
-- that a larger one needs several rounds.
use libemq.Base.{
  zero, refl, ℕ, List, ◌≤◌, arith, ◌≡◌, drop, length, ◌<◌, ◌++◌, Option, suc, take, ◌∷◌, some, [],
  replicate, take-length, ap, length-replicate,
}
use libemq.System.{
  Posix, Reliable, System, received, Writing, Reading, written, interrupted, write_error,
  read_error, Ample, Gathers,
}

pub record Pipe : Type 0 where
  pub input : List ℕ
  pub output : List ℕ

abbrev chunk : ℕ → ℕ
chunk zero = 0
chunk (suc zero) = 1
chunk (suc (suc zero)) = 2
chunk (suc (suc (suc n))) = 3

chunk-le : (n : ℕ) → chunk n ≤ n
chunk-le zero = omega arith
chunk-le (suc zero) = omega arith
chunk-le (suc (suc zero)) = omega arith
chunk-le (suc (suc (suc n))) = omega arith

abbrev pub pipe : System Pipe
pipe = record {
  read = λ fd n w. (received (take (chunk n) w.input), record w { input = drop (chunk n) w.input });
  write = λ fd bs w. (written (length bs), record w { output = w.output ++ bs });
  writev = λ fd bs w. (written (length bs), record w { output = w.output ++ bs });
  malloc = λ n w. (some (replicate n 0), w);
  realloc = λ old n w. (some (replicate n 0), w);
  patience = 1;
}

take-le : (n : ℕ) (xs : List ℕ) → length (take n xs) ≤ n
take-le zero xs = omega arith
take-le (suc n) [] = omega arith
take-le (suc n) (x ∷ xs) = omega (arith, take-le n xs)

take-append-drop : (n : ℕ) (xs : List ℕ) → xs ≡ take n xs ++ drop n xs
take-append-drop zero xs = refl
take-append-drop (suc n) [] = refl
take-append-drop (suc n) (x ∷ xs) = ap (λ (zs : List ℕ). x ∷ zs) (take-append-drop n xs)

pub read_lem :
    (n : ℕ) (w w' : Pipe) (bs : List ℕ)
    → ◌≡◌ {A = Reading × Pipe}
        (received (take (chunk n) w.input), record w { input = drop (chunk n) w.input })
        (received bs, w')
    → (length bs ≤ n) × (w.input ≡ bs ++ w'.input) × (w'.output ≡ w.output)
read_lem n w w' bs e =
    ground (arith, take-le (chunk n) w.input, chunk-le n, take-append-drop (chunk n) w.input)

pub write_lem :
    (bs : List ℕ) (w w' : Pipe) (k : ℕ)
    → ◌≡◌ {A = Writing × Pipe}
        (written (length bs), record w { output = w.output ++ bs })
        (written k, w')
    → (k ≤ length bs) × (w'.output ≡ w.output ++ take k bs) × (w'.input ≡ w.input)
write_lem bs w w' k e = ground (arith, take-length bs)

pub block_lem :
    (n : ℕ) (w w' : Pipe) (block : List ℕ)
    → ◌≡◌ {A = Option (List ℕ) × Pipe} (some (replicate n 0), w) (some block, w')
    → length block ≡ n
block_lem n w w' block e = ground (arith, length-replicate {A = ℕ} n 0)

pub read_not_failed :
    (n : ℕ) (w w' : Pipe)
    → ◌≡◌ {A = Reading × Pipe}
        (received (take (chunk n) w.input), record w { input = drop (chunk n) w.input })
        (read_error, w')
    → (w'.output ≡ w.output) × (length w'.input ≤ length w.input)
read_not_failed n w w' e = cc

pub write_not_failed :
    (bs : List ℕ) (w w' : Pipe)
    → ◌≡◌ {A = Writing × Pipe}
        (written (length bs), record w { output = w.output ++ bs })
        (write_error, w')
    → (w'.output ≡ w.output) × (w'.input ≡ w.input)
write_not_failed bs w w' e = cc

pub write_not_interrupted :
    (bs : List ℕ) (w w' : Pipe)
    → ◌≡◌ {A = Writing × Pipe}
        (written (length bs), record w { output = w.output ++ bs })
        (interrupted, w')
    → (w'.output ≡ w.output) × (w'.input ≡ w.input)
write_not_interrupted bs w w' e = cc

abbrev pub pipe_posix : Posix pipe
pipe_posix = record {
  incoming = λ fd w. w.input;
  sent = λ fd w. w.output;
  read_received = λ fd n w w' bs e. read_lem n w w' bs e;
  read_error_streams = λ fd n w w' e. read_not_failed n w w' e;
  write_written = λ fd bs w w' k e. write_lem bs w w' k e;
  write_error_streams = λ fd bs w w' e. write_not_failed bs w w' e;
  write_interrupted = λ fd bs w w' e. write_not_interrupted bs w w' e;
  writev_written = λ fd bs w w' k e. write_lem bs w w' k e;
  writev_error_streams = λ fd bs w w' e. write_not_failed bs w w' e;
  writev_interrupted = λ fd bs w w' e. write_not_interrupted bs w w' e;
  malloc_length = λ n w w' block e. block_lem n w w' block e;
  malloc_streams = λ fd n w. (refl, refl);
  realloc_length = λ old n w w' block e. block_lem n w w' block e;
}

some_taken :
    (n : ℕ) (xs : List ℕ)
    → 0 < n
    → 0 < length xs
    → (b : ℕ) × (bs : List ℕ) × (take (chunk n) xs ≡ b ∷ bs)
some_taken zero xs h l = absurd (omega arith)
some_taken (suc n) [] h l = absurd (omega arith)
some_taken (suc zero) (x ∷ xs) h l = (x, [], refl)
some_taken (suc (suc zero)) (x ∷ xs) h l = (x, take 1 xs, refl)
some_taken (suc (suc (suc n))) (x ∷ xs) h l = (x, take 2 xs, refl)

some_written : (bs : List ℕ) → 0 < length bs → (k : ℕ) × (length bs ≡ suc k)
some_written [] h = absurd (omega arith)
some_written (b ∷ bs) h = (length bs, refl)

pub pipe-Reliable : Reliable pipe_posix
pipe-Reliable = record {
  read_some = λ fd n w h l.
      let (b, bs, e) = some_taken n w.input h l in
      (b, bs, record w { input = drop (chunk n) w.input }, rw e);
  write_some = λ fd bs w h.
      let (k, e) = some_written bs h in (k, record w { output = w.output ++ bs }, rw e);
}

pub pipe-Ample : Ample pipe
pipe-Ample = record { provides = λ n w. (replicate n 0, w, refl) }

pub pipe-Gathers : Gathers pipe
pipe-Gathers = record {
  patient = omega arith;
  whole = λ fd bs w. (record w { output = w.output ++ bs }, refl);
}
