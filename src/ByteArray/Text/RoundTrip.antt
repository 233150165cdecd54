-- ===== src/ByteArray/Text/RoundTrip.antt =====
-- The strings of src/base/bytearray.h read back as they were written; the empty one may not.
use agent_link_coro.Prelude.{
  ℕ, ◌+◌, ◌^◌, ◌<◌, ◌≡◌, sym, ap, ◌∙◌, subst, List, [], ◌++◌, append_assoc, append-nil, arith,
  length, length-append,
}
use agent_link_coro.Prelude.Words.{IsU64}
use native.Mathlib.Nat.{mod-eq_of_lt, one-le-pow}
use agent_link_coro.Outcome.{Outcome, fault, ◌>>=◌}
use agent_link_coro.ByteArray.Store.{ByteArray, bytes, write, read}
use agent_link_coro.ByteArray.Store.Invariant.{IsValid, readable, length-readable}
use agent_link_coro.ByteArray.Store.Grow.{HasRoom}
use agent_link_coro.ByteArray.Store.Write.{Wrote}
use agent_link_coro.ByteArray.Store.View.{write-Wrote, read_at_end}
use agent_link_coro.ByteArray.Sequence.{
  Parsed, Parsed->>=, Parsed-readable, read-Parsed, RoundTrips, Wrote-RoundTrips, Wrote->>=,
}
use agent_link_coro.ByteArray.Fixed.{write_fixed, read_fixed}
use agent_link_coro.ByteArray.Fixed.RoundTrip.{
  image, length-image, write_fixed-Wrote, read_fixed-Parsed,
}
use agent_link_coro.ByteArray.Varint.{write_uint64, read_uint64}
use agent_link_coro.ByteArray.Varint.Groups.{groups, length-groups}
use agent_link_coro.ByteArray.Varint.RoundTrip.{write_uint64-Wrote, read_uint64-Parsed}
use agent_link_coro.ByteArray.Text.{
  write_string_fixed, write_string_vint, read_string_fixed, read_string_vint,
}

-- A length and then so many bytes: written after one another, and taken after one another.
prefixed-Wrote :
    (b : ByteArray) (head s : List ℕ) (m : Outcome ByteArray)
    → IsValid b
    → 0 < length s
    → HasRoom b (length head + length s)
    → Wrote b head m
    → Wrote b (head ++ s) (m >>= λ b'. write b' (bytes s))
prefixed-Wrote b head s m v pos room w =
    Wrote->>= b head s m (λ b'. write b' (bytes s)) v w
      (write-Wrote w.b' s w.valid pos (omega (arith, w.position_is, w.base_is)))

prefixed-Parsed :
    (b : ByteArray) (head s ys : List ℕ) (m : Outcome (ℕ × ByteArray))
    → 0 < length s
    → readable b ≡ (head ++ s) ++ ys
    → Parsed b (length head) (length s) m
    → Parsed b (length (head ++ s)) s (m >>= λ r. read r.1 r.0)
prefixed-Parsed b head s ys m pos e p =
    let rest = Parsed-readable b head (s ++ ys) (e ∙ append_assoc head s ys) p in
    subst (λ n. Parsed b n s (m >>= λ r. read r.1 r.0)) (sym (length-append head s))
      (Parsed->>= b (length head) (length s) m (λ r. read r.1 r.0) p
        (read-Parsed p.b' s ys p.valid pos rest))

-- On a well formed buffer with room in the address space, a string that is not empty, and whose
-- length fits its field of `n` bytes, reads back whole, in either byte order: writeStringF16,
-- writeStringF32 and writeStringF64.
pub string_fixed_round_trip :
    (n : ℕ) (b : ByteArray) (s : List ℕ)
    → IsValid b
    → 0 < n
    → 0 < length s
    → length s < 256 ^ n
    → HasRoom b (n + length s)
    → RoundTrips b (write_string_fixed n b s) (read_string_fixed n) s
unfolding write_string_fixed read_string_fixed
string_fixed_round_trip n b s v pos some fits room =
    let head = image b.little_endian n (length s) in
    let len = length-image b.little_endian n (length s) in
    rw (mod-eq_of_lt fits) (
      Wrote-RoundTrips b (head ++ s) _ (read_string_fixed n) s v
        (prefixed-Wrote b head s (write_fixed n b (length s)) v some (omega arith)
          (write_fixed-Wrote n b (length s) v pos (omega arith)))
        λ b2 ys v2 same e. prefixed-Parsed b2 head s ys (read_fixed n b2) some e (
          subst (λ k. Parsed b2 k (length s) (read_fixed n b2)) (sym len)
            (read_fixed-Parsed n b2 (length s) (s ++ ys) v2 pos fits (
              e
              ∙ append_assoc head s ys
              ∙ ap (λ little. image little n (length s) ++ (s ++ ys)) (sym same)))))

-- On a well formed buffer with room in the address space, a string that is not empty and whose length
-- is a uint64_t, written by writeStringVint, reads back whole by readStringVint.
pub string_vint_round_trip :
    (b : ByteArray) (s : List ℕ)
    → IsValid b
    → 0 < length s
    → IsU64 (length s)
    → HasRoom b (10 + length s)
    → RoundTrips b (write_string_vint b s) read_string_vint s
unfolding write_string_vint read_string_vint
string_vint_round_trip b s v some fits room =
    let head = groups 9 (length s) in
    let len = length-groups 9 (length s) in
    Wrote-RoundTrips b (head ++ s) (write_string_vint b s) read_string_vint s v
      (prefixed-Wrote b head s (write_uint64 b (length s)) v some (omega arith)
        (write_uint64-Wrote b (length s) v fits (omega arith)))
      λ b2 ys v2 same e.
        prefixed-Parsed b2 head s ys (read_uint64 b2) some e
          (read_uint64-Parsed b2 (length s) (s ++ ys) v2 fits (e ∙ append_assoc head s ys))

-- An empty string whose length field ends a full buffer cannot be read: after the field m_cur is
-- the null pointer, and the read of no bytes follows it.
pub empty_string_faults :
    (n : ℕ) (b : ByteArray)
    → IsValid b
    → 0 < n
    → b.size ≡ b.capacity
    → readable b ≡ image b.little_endian n 0
    → read_string_fixed n b ≡ fault
unfolding read_string_fixed
empty_string_faults n b v pos full e =
    let p =
      read_fixed-Parsed n b 0 [] v pos (one-le-pow n 256 (omega arith))
        (e ∙ sym (append-nil (image b.little_endian n 0))) in
    let len : length (readable b) ≡ n = ap length e ∙ length-image b.little_endian n 0 in
    let end : p.b'.position ≡ p.b'.capacity =
      omega (arith, p.position_is, p.capacity_is, length-readable b v, v.position_le) in
    rw (p.succeeds) (read_at_end p.b' 0 p.valid end).0
