-- ===== src/Stream/FixSize.antt =====
-- What readFixSize and writeFixSize of src/base/net/stream.cc do, however the bytes come and go.
use agent_link_coro.Prelude.{
  ℕ, zero, suc, ◌+◌, ◌-◌, ◌%◌, ◌^◌, ◌≤◌, ◌<◌, ◌≡◌, refl, sym, ap, ◌∙◌, subst, Bool, true, false,
  List, [], ◌∷◌, ◌++◌, arith, ltb, ◌==◌, if◌then◌else◌, length, take, drop, min, All, lt→ltb, ne→==,
  append_assoc, append-nil, length-take, length-drop, take-append-take-drop, take-take,
  take-append-drop, drop-drop,
}
use native.Mathlib.Nat.{mod-eq_of_lt}
use agent_link_coro.Stream.{
  Stream, at_most, later, read_some, write_some, read_fix_loop, read_fix_size, write_fix_loop,
  write_fix_size,
}

-- Every call of `read` and `write` moves something, as a stream does that is neither broken nor at
-- its end.
pub record IsFlowing (s : Stream) : Type 0 where
  pub arrives : All (λ c. 0 < c) s.arrivals
  pub departs : All (λ c. 0 < c) s.departures
  pub buffered : 0 < s.buff_size

at_most_bounds :
    (cs : List ℕ) (n : ℕ) → All (λ c. 0 < c) cs → 0 < n → (0 < at_most cs n) × (at_most cs n ≤ n)
at_most_bounds [] n h pos = omega arith
at_most_bounds (c ∷ cs) n h pos = omega (arith, h.0)

All-later : (cs : List ℕ) → All (λ c. 0 < c) cs → All (λ c. 0 < c) (later cs)
All-later [] h = tt
All-later (c ∷ cs) h = h.1

-- A stream `s'` that is `s` after it has read `n` bytes.
pub record HasRead (n : ℕ) (s s' : Stream) : Type 0 where
  pub incoming : s'.incoming ≡ drop n s.incoming
  pub outgoing : s'.outgoing ≡ s.outgoing
  pub is_closed : s'.is_closed ≡ s.is_closed
  pub flowing : IsFlowing s'

read_some-HasRead :
    (s : Stream) (n : ℕ)
    → IsFlowing s
    → 0 < n
    → (k : ℕ) × (0 < k)
      × (k ≤ min n s.buff_size)
      × ((read_some s (min n s.buff_size)).0 ≡ take k s.incoming)
      × HasRead k s (read_some s (min n s.buff_size)).1
unfolding read_some
read_some-HasRead s n f pos =
    let bounds =
      at_most_bounds s.arrivals (min n s.buff_size) f.arrives (omega (arith, f.buffered)) in
    (
      at_most s.arrivals (min n s.buff_size),
      bounds.0,
      bounds.1,
      refl,
      record {
        incoming = refl;
        outgoing = refl;
        is_closed = refl;
        flowing = record {
          arrives = All-later s.arrivals f.arrives;
          departs = f.departs;
          buffered = f.buffered;
        };
      },
    )

pub HasRead-trans :
    (j k n : ℕ) (s s1 s2 : Stream) → n ≡ j + k → HasRead j s s1 → HasRead k s1 s2 → HasRead n s s2
HasRead-trans j k n s s1 s2 e a b = record {
  incoming = b.incoming ∙ ap (drop k) a.incoming ∙ drop-drop k j n s.incoming e;
  outgoing = b.outgoing ∙ a.outgoing;
  is_closed = b.is_closed ∙ a.is_closed;
  flowing = b.flowing;
}

pub HasRead-zero : (s : Stream) → IsFlowing s → HasRead 0 s s
HasRead-zero s f = record { incoming = refl; outgoing = refl; is_closed = refl; flowing = f }

read_fix_loop_lem :
    (fuel : ℕ) (s : Stream) (left : ℕ)
    → IsFlowing s
    → left ≤ fuel
    → left ≤ length s.incoming
    → let r = read_fix_loop fuel s left in
      (r.0 ≡ true) × (r.1 ≡ take left s.incoming) × HasRead left s r.2
unfolding read_fix_loop
read_fix_loop_lem zero s zero f h enough = (refl, refl, HasRead-zero s f)
read_fix_loop_lem zero s (suc left) f h enough = absurd (omega arith)
read_fix_loop_lem (suc fuel) s zero f h enough = (refl, refl, HasRead-zero s f)
read_fix_loop_lem (suc fuel) s (suc left) f h enough =
    let n = suc left in
    let (k, pos, most, bytes, now) = read_some-HasRead s n f (omega arith) in
    let s1 = (read_some s (min n s.buff_size)).1 in
    let moved : length (read_some s (min n s.buff_size)).0 ≡ k =
      ap length bytes ∙ length-take k s.incoming ∙ omega arith in
    let not_none : (k == 0) ≡ false = ne→== k 0 (λ e. omega arith) in
    let ih =
      read_fix_loop_lem fuel s1 (n - k) now.flowing (omega arith)
        (omega (arith, ap length now.incoming, length-drop k s.incoming)) in
    let not_done : (n == 0) ≡ false = ne→== n 0 (λ e. omega arith) in
    rw (moved, not_none, not_done)
      (
        ih.0,
        ap (λ z. z ++ (read_fix_loop fuel s1 (n - k)).1) bytes
            ∙ ap (λ z. take k s.incoming ++ z) (ih.1 ∙ ap (take (n - k)) now.incoming)
            ∙ take-append-take-drop k (n - k) n s.incoming (omega arith),
        HasRead-trans k (n - k) n s s1 (read_fix_loop fuel s1 (n - k)).2 (omega arith) now ih.2,
      )

-- With fewer bytes on their way than are wanted the loop comes to no end.
read_fix_loop_short :
    (fuel : ℕ) (s : Stream) (left : ℕ)
    → length s.incoming < left
    → (read_fix_loop fuel s left).0 ≡ false
unfolding read_fix_loop read_some
read_fix_loop_short zero s left short = ne→== left 0 (λ e. omega arith)
read_fix_loop_short (suc fuel) s left short =
    let k = at_most s.arrivals (min left s.buff_size) in
    let not_done : (left == 0) ≡ false = ne→== left 0 (λ e. omega arith) in
    let ih =
      read_fix_loop_short fuel (read_some s (min left s.buff_size)).1
        (left - length (take k s.incoming))
        (omega (arith, length-drop k s.incoming, length-take k s.incoming)) in
    rw not_done (
      by_size (length (take k s.incoming) == 0)
        (read_fix_loop fuel (read_some s (min left s.buff_size)).1
          (left - length (take k s.incoming)))
        _ _ _ ih)
  where
    by_size :
        (t : Bool) (r : Bool × List ℕ × Stream) (x : List ℕ) (y : Stream) (z : List ℕ)
        → r.0 ≡ false
        → (let q : Bool × List ℕ × Stream = if t then (false, x, y) else (r.0, z ++ r.1, r.2) in
            q.0)
          ≡ false
    by_size true r x y z h = refl
    by_size false r x y z h = h

-- readFixSize on a flowing stream, for fewer than 2 ^ 31 bytes: with as many on their way it returns
-- their number, has them in order in the buffer and leaves what comes behind them; with fewer, and
-- also for no byte at all, it returns a number that is not positive.
pub read_fix_size_lem :
    (s : Stream) (n : ℕ)
    → IsFlowing s
    → n < 2 ^ 31
    → let r = read_fix_size s n in
      (n ≤ length s.incoming → (r.0 ≡ n) × (r.1 ≡ take n s.incoming) × HasRead n s r.2)
      × (length s.incoming < n → r.0 ≡ 0)
unfolding read_fix_size
read_fix_size_lem s n f small =
    let a : n % 2 ^ 64 ≡ n = mod-eq_of_lt (omega arith) in
    let b : n % 2 ^ 32 ≡ n = mod-eq_of_lt (omega arith) in
    let c : ltb n (2 ^ 63) ≡ true = lt→ltb n (2 ^ 63) (omega arith) in
    rw (a, b, c, lt→ltb n (2 ^ 31) small)
      (
        (λ enough.
            let (done, bytes, now) = read_fix_loop_lem n s n f (omega arith) enough in
            rw done (refl, bytes, now)),
        λ short. rw (read_fix_loop_short n s n short) refl,
      )

-- A stream `s'` that is `s` after it has written `bytes`.
pub record HasWritten (bytes : List ℕ) (s s' : Stream) : Type 0 where
  pub outgoing : s'.outgoing ≡ s.outgoing ++ bytes
  pub incoming : s'.incoming ≡ s.incoming
  pub is_closed : s'.is_closed ≡ s.is_closed
  pub flowing : IsFlowing s'

pub HasWritten-trans :
    (xs ys : List ℕ) (s s1 s2 : Stream)
    → HasWritten xs s s1
    → HasWritten ys s1 s2
    → HasWritten (xs ++ ys) s s2
HasWritten-trans xs ys s s1 s2 a b = record {
  outgoing = b.outgoing ∙ ap (λ z. z ++ ys) a.outgoing ∙ append_assoc s.outgoing xs ys;
  incoming = b.incoming ∙ a.incoming;
  is_closed = b.is_closed ∙ a.is_closed;
  flowing = b.flowing;
}

HasWritten-nil : (s : Stream) → IsFlowing s → HasWritten [] s s
HasWritten-nil s f = record {
  outgoing = sym (append-nil s.outgoing);
  incoming = refl;
  is_closed = refl;
  flowing = f;
}

write_some-HasWritten :
    (s : Stream) (buffer : List ℕ)
    → IsFlowing s
    → 0 < length buffer
    → let r = write_some s (take s.buff_size buffer) in
      (0 < r.0) × (r.0 ≤ length buffer) × HasWritten (take r.0 buffer) s r.1
unfolding write_some
write_some-HasWritten s buffer f pos =
    let n = length (take s.buff_size buffer) in
    let size : n ≡ min s.buff_size (length buffer) = length-take s.buff_size buffer in
    let k = at_most s.departures n in
    let bounds = at_most_bounds s.departures n f.departs (omega (arith, size, f.buffered)) in
    let len : length (take k (take s.buff_size buffer)) ≡ k =
      length-take k (take s.buff_size buffer) ∙ omega (arith, bounds.1) in
    let cut : take k (take s.buff_size buffer) ≡ take k buffer =
      take-take k s.buff_size buffer (omega (arith, size, bounds.1)) in
    rw (len, cut)
      (
        omega (arith, bounds.0),
        omega (arith, size, bounds.1),
        record {
          outgoing = refl;
          incoming = refl;
          is_closed = refl;
          flowing = record {
            arrives = f.arrives;
            departs = All-later s.departures f.departs;
            buffered = f.buffered;
          };
        },
      )

write_fix_loop_lem :
    (fuel : ℕ) (s : Stream) (buffer : List ℕ)
    → IsFlowing s
    → length buffer ≤ fuel
    → let r = write_fix_loop fuel s buffer in (r.0 ≡ true) × HasWritten buffer s r.1
unfolding write_fix_loop
write_fix_loop_lem zero s [] f h = (refl, HasWritten-nil s f)
write_fix_loop_lem zero s (x ∷ xs) f h = absurd (omega arith)
write_fix_loop_lem (suc fuel) s [] f h = (refl, HasWritten-nil s f)
write_fix_loop_lem (suc fuel) s (x ∷ xs) f h =
    let buffer = x ∷ xs in
    let (pos, most, now) = write_some-HasWritten s buffer f (omega arith) in
    let r = write_some s (take s.buff_size buffer) in
    let not_none : (r.0 == 0) ≡ false = ne→== r.0 0 (λ e. omega (arith, pos)) in
    let ih =
      write_fix_loop_lem fuel r.1 (drop r.0 buffer) now.flowing
        (omega (arith, pos, length-drop r.0 buffer)) in
    let not_done : (length buffer == 0) ≡ false = ne→== (length buffer) 0 (λ e. omega arith) in
    rw (not_none, not_done)
      (
        ih.0,
        subst (λ z. HasWritten z s (write_fix_loop fuel r.1 (drop r.0 buffer)).1)
            (take-append-drop r.0 buffer)
            (HasWritten-trans (take r.0 buffer) (drop r.0 buffer) s r.1
              (write_fix_loop fuel r.1 (drop r.0 buffer)).1 now ih.1),
      )

-- writeFixSize on a flowing stream, of fewer than 2 ^ 31 bytes, returns their number and sends all of
-- them in order.
pub write_fix_size_lem :
    (s : Stream) (buffer : List ℕ)
    → IsFlowing s
    → length buffer < 2 ^ 31
    → let r = write_fix_size s buffer in (r.0 ≡ length buffer) × HasWritten buffer s r.1
unfolding write_fix_size
write_fix_size_lem s buffer f small =
    let b : length buffer % 2 ^ 32 ≡ length buffer = mod-eq_of_lt (omega arith) in
    let (done, now) = write_fix_loop_lem (length buffer) s buffer f (omega arith) in
    rw (b, lt→ltb (length buffer) (2 ^ 31) small, done) (refl, now)
