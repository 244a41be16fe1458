-- ===== src/Network.antt =====
-- src/network.c: the loops around read(2), write(2) and writev(2).
pub mod Read
pub mod Write
pub mod Reliable
pub mod Gather
pub mod Takes
use libemq.Base.{
  ℕ, zero, suc, ◌+◌, ◌-◌, Option, none, some, List, [], ◌∷◌, ◌++◌, ◌==◌, if◌then◌else◌, length,
  drop,
}
use libemq.System.{
  System, received, read_error, written, interrupted, write_error, Reading, Writing,
}
use libemq.Client.{State, Run, done, fault, stuck, Prog, Client}

-- How a transfer ends: with `totlen`, and for a read what the buffer holds; with -1; or past the
-- end of the buffer, when the kernel counts more than it was asked for.
pub data Transfer : Type 0 where
  complete : ℕ → List ℕ → Transfer
  failed : Transfer
  overrun : Transfer

module _ {World : Type 0} where
  -- What follows a call of `read`: the end of the loop, or the next round.
  read_next :
      (ℕ → List ℕ → World → Transfer × World) → ℕ → List ℕ → Reading × World → Transfer × World
  read_next go totlen buf (read_error, w) = (failed, w)
  read_next go totlen buf (received [], w) = (failed, w)
  read_next go totlen buf (received (b ∷ bs), w) = go (totlen + length (b ∷ bs)) (buf ++ (b ∷ bs)) w

  write_next :
      (ℕ → List ℕ → World → Transfer × World) → ℕ → List ℕ → Writing × World → Transfer × World
  write_next go totlen buf (write_error, w) = (failed, w)
  write_next go totlen buf (interrupted, w) = (failed, w)
  write_next go totlen buf (written zero, w) = (complete totlen buf, w)
  write_next go totlen buf (written (suc n), w) = go (totlen + suc n) (drop (suc n) buf) w

  -- The callers test the result only for -1: `some` with the bytes that were read, or with the
  -- count that was written.
  read_result : Client → Transfer × World → Run World (Option (List ℕ))
  read_result c (complete totlen buf, w) = done (some buf) (record { client = c; world = w })
  read_result c (failed, w) = done none (record { client = c; world = w })
  read_result c (overrun, w) = fault

  write_result : Client → Transfer × World → Run World (Option ℕ)
  write_result c (complete totlen buf, w) = done (some totlen) (record { client = c; world = w })
  write_result c (failed, w) = done none (record { client = c; world = w })
  write_result c (overrun, w) = fault

  writev_next : (World → Run World (Option ℕ)) → Client → Writing × World → Run World (Option ℕ)
  writev_next again c (written n, w) = done (some n) (record { client = c; world = w })
  writev_next again c (write_error, w) = done none (record { client = c; world = w })
  writev_next again c (interrupted, w) = again w

module _ {World : Type 0} (sys : System World) where
  -- `while (totlen != count) { nread = read(fd, buf, count-totlen); … }`. Each round stores a byte
  -- at least, so `count + 1` rounds of fuel are enough unless the buffer overflows.
  read_loop : ℕ → (fd count totlen : ℕ) → List ℕ → World → Transfer × World
  unfolding read_next
  read_loop zero fd count totlen buf w = (overrun, w)
  read_loop (suc k) fd count totlen buf w =
      let next = read_next (read_loop k fd count) totlen buf (sys.read fd (count - totlen) w) in
      if totlen == count then (complete totlen buf, w) else next

  -- `emq_client_read`
  unfoldable pub client_read : ℕ → Prog World (Option (List ℕ))
  unfolding read_loop read_result
  client_read count s = read_result s.client (read_loop (suc count) s.client.fd count 0 [] s.world)

  -- `while (totlen != count) { nwritten = write(fd, buf, count-totlen); … }` over the bytes that
  -- are left; the function returns what it has written so far when `write` returns 0.
  write_loop : ℕ → (fd count totlen : ℕ) → List ℕ → World → Transfer × World
  unfolding write_next
  write_loop zero fd count totlen buf w = (overrun, w)
  write_loop (suc k) fd count totlen buf w =
      let next = write_next (write_loop k fd count) totlen buf (sys.write fd buf w) in
      if totlen == count then (complete totlen buf, w) else next

  -- `emq_client_write`
  unfoldable pub client_write : List ℕ → Prog World (Option ℕ)
  unfolding write_loop write_result
  client_write buf s =
      write_result s.client (write_loop (suc (length buf)) s.client.fd (length buf) 0 buf s.world)

  -- `while ((ret = writev(fd, iov, iovcnt)) == -1 && errno == EINTR);`
  writev_loop : ℕ → Client → List ℕ → World → Run World (Option ℕ)
  unfolding writev_next
  writev_loop zero c bufs w = stuck
  writev_loop (suc k) c bufs w = writev_next (writev_loop k c bufs) c (sys.writev c.fd bufs w)

  -- `emq_client_writev`, whose vectors are given one after the other
  unfoldable pub client_writev : List ℕ → Prog World (Option ℕ)
  unfolding writev_loop
  client_writev bufs s = writev_loop sys.patience s.client bufs s.world
