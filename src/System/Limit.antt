-- ===== src/System/Limit.antt =====
-- The system of Pipe under a limit on its memory: an allocation of 2 GiB or more is refused.
use libemq.Base.{
  ℕ, List, Option, some, none, ◌≡◌, ◌≤◌, ◌^◌, if◌then◌else◌, ltb, replicate, length, Bool-cases,
  inl, inr, refl, arith, false,
}
use libemq.System.{System, Posix, Limited}
use libemq.System.Pipe.{
  Pipe, pipe, block_lem, read_lem, read_not_failed, write_lem, write_not_failed,
  write_not_interrupted,
}

abbrev pub limited_pipe : System Pipe
limited_pipe = record pipe {
  malloc = λ n w. if ltb n (2 ^ 31) then (some (replicate n 0), w) else (none, w);
}

pub limited_block :
    (n : ℕ) (w w' : Pipe) (block : List ℕ)
    → limited_pipe.malloc n w ≡ (some block, w')
    → length block ≡ n
limited_block n w w' block e = elim (Bool-cases (ltb n (2 ^ 31))) [
  | inl small ↦ block_lem n w w' block (rw small at e)
  | inr large ↦
      let refused : ◌≡◌ {A = Option (List ℕ) × Pipe} (none, w) (some block, w') = rw large at e in
      absurd cc
]

pub limited_world : (n : ℕ) (w : Pipe) → (limited_pipe.malloc n w).1 ≡ w
limited_world n w = elim (Bool-cases (ltb n (2 ^ 31))) [
  | inl small ↦ rw small refl
  | inr large ↦ rw large refl
]

abbrev pub limited_posix : Posix limited_pipe
limited_posix = record {
  incoming = λ fd w. w.input;
  sent = λ fd w. w.output;
  read_received = λ fd n w w' bs e. read_lem n w w' bs e;
  read_error_streams = λ fd n w w' e. read_not_failed n w w' e;
  write_written = λ fd bs w w' k e. write_lem bs w w' k e;
  write_error_streams = λ fd bs w w' e. write_not_failed bs w w' e;
  write_interrupted = λ fd bs w w' e. write_not_interrupted bs w w' e;
  writev_written = λ fd bs w w' k e. write_lem bs w w' k e;
  writev_error_streams = λ fd bs w w' e. write_not_failed bs w w' e;
  writev_interrupted = λ fd bs w w' e. write_not_interrupted bs w w' e;
  malloc_length = λ n w w' block e. limited_block n w w' block e;
  malloc_streams = λ fd n w. (rw (limited_world n w) refl, rw (limited_world n w) refl);
  realloc_length = λ old n w w' block e. block_lem n w w' block e;
}

limited_refuses : (n : ℕ) (w : Pipe) → 2 ^ 31 ≤ n → (limited_pipe.malloc n w).0 ≡ none
limited_refuses n w large = let test : ltb n (2 ^ 31) ≡ false = ground arith in rw test refl

pub pipe-Limited : Limited limited_pipe
pipe-Limited = record { refuses = limited_refuses }
