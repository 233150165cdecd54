-- ===== src/Stream.antt =====
-- src/base/net/stream.h and stream.cc: reading and writing a fixed number of bytes over a stream that
-- gives and takes any part of what it is asked for.
pub mod FixSize
use agent_link_coro.Prelude.{
  ℕ, zero, suc, ◌-◌, ◌%◌, ◌^◌, Bool, true, false, List, [], ◌∷◌, ◌++◌, ltb, ◌==◌, if◌then◌else◌,
  length, take, drop, min,
}

-- A stream: the bytes on their way to it, the number of bytes that each call of `read` and `write`
-- can move at most, in order, and the bytes it has sent. A call for which no number is left moves all
-- it is asked for; one that moves none has failed or met the end, for which the code returns some
-- number that is not positive. MAX_LEN is buff_size.
pub record Stream : Type 0 where
  pub incoming : List ℕ
  pub arrivals : List ℕ
  pub outgoing : List ℕ
  pub departures : List ℕ
  pub buff_size : ℕ
  pub is_closed : Bool

abbrev pub at_most : List ℕ → ℕ → ℕ
at_most [] n = n
at_most (c ∷ cs) n = min c n

abbrev pub later : List ℕ → List ℕ
later [] = []
later (c ∷ cs) = cs

-- Stream::read: the bytes read.
unfoldable pub read_some : Stream → ℕ → List ℕ × Stream
read_some s n =
    let k = at_most s.arrivals n in
    (take k s.incoming, record s { incoming = drop k s.incoming; arrivals = later s.arrivals })

-- Stream::write: the number of bytes written.
unfoldable pub write_some : Stream → List ℕ → ℕ × Stream
write_some s bytes =
    let k = at_most s.departures (length bytes) in
    (
      length (take k bytes),
      record s { outgoing = s.outgoing ++ take k bytes; departures = later s.departures },
    )

-- close
abbrev pub close : Stream → Stream
close s = record s { is_closed = true }

-- `int64_t left = length`, as far as it is positive.
abbrev pub left_of : ℕ → ℕ
left_of length = if ltb (length % 2 ^ 64) (2 ^ 63) then length % 2 ^ 64 else 0

-- `return length`, as an int; 0 stands for every int that is not positive.
abbrev pub result_of : ℕ → ℕ
result_of length = if ltb (length % 2 ^ 32) (2 ^ 31) then length % 2 ^ 32 else 0

-- The loop of readFixSize with `fuel` rounds at most: whether it came to its end, and the bytes read.
unfoldable pub read_fix_loop : ℕ → Stream → ℕ → Bool × List ℕ × Stream
unfolding read_some
read_fix_loop zero s left = (left == 0, [], s)
read_fix_loop (suc fuel) s left =
    let (bytes, s1) = read_some s (min left s.buff_size) in
    let (done, rest, s2) = read_fix_loop fuel s1 (left - length bytes) in
    if left == 0
    then (true, [], s)
    else if length bytes == 0
    then (false, [], s1)
    else (done, bytes ++ rest, s2)

-- readFixSize(void *, size_t): what it returns, the bytes in the buffer, and the stream. Every round
-- but the last reads a byte, so `left` rounds are enough.
unfoldable pub read_fix_size : Stream → ℕ → ℕ × List ℕ × Stream
unfolding read_fix_loop
read_fix_size s length =
    let (done, bytes, s') = read_fix_loop (left_of length) s (left_of length) in
    ((if done then result_of length else 0), bytes, s')

-- The loop of writeFixSize: whether it came to its end.
unfoldable pub write_fix_loop : ℕ → Stream → List ℕ → Bool × Stream
unfolding write_some
write_fix_loop zero s buffer = (length buffer == 0, s)
write_fix_loop (suc fuel) s buffer =
    let (len, s1) = write_some s (take s.buff_size buffer) in
    let (done, s2) = write_fix_loop fuel s1 (drop len buffer) in
    if length buffer == 0 then (true, s) else if len == 0 then (false, s1) else (done, s2)

-- writeFixSize(const void *, size_t)
unfoldable pub write_fix_size : Stream → List ℕ → ℕ × Stream
unfolding write_fix_loop
write_fix_size s buffer =
    let (done, s') = write_fix_loop (length buffer) s buffer in
    ((if done then result_of (length buffer) else 0), s')
