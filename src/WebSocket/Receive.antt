-- ===== src/WebSocket/Receive.antt =====
-- How WSRecvMessage of src/base/net/http/ws_session.cc takes one frame off a stream.
use agent_link_coro.Prelude.{
  ℕ, ◌+◌, ◌^◌, ◌≤◌, ◌<◌, ◌≡◌, refl, ap, ◌∙◌, Bool, true, false, not, ◌&&◌, List, [], ◌∷◌, ◌++◌,
  none, some, arith, ltb, leb, ◌==◌, if◌then◌else◌, length, take, drop, inl, inr, Bool-cases, ne→==,
  append-nil, length-append, ltb→lt, lt→leb, take-append_ge, drop-append_ge,
}
use agent_link_coro.Prelude.Words.{add64, add64_no_wrap}
use agent_link_coro.Stream.{Stream, read_fix_size}
use agent_link_coro.Stream.FixSize.{IsFlowing, read_fix_size_lem}
use agent_link_coro.ByteArray.Fixed.{from_memory, byteswap}
use agent_link_coro.ByteArray.Fixed.RoundTrip.{image, length-image, loaded_image}
use agent_link_coro.WebSocket.{
  ◌>>=◌, give, WsFrameHead, apply_mask, read_exact, read_length, read_mask, read_payload,
}
use agent_link_coro.WebSocket.Frame.{
  apply_mask_twice, length_bytes, mask_bytes, masked_bytes, data_head,
}
use agent_link_coro.WebSocket.Send.{bind_lem, length-masked_bytes}

-- A stream `s'` that is `s` after it has read up to `rest`.
pub record Took (rest : List ℕ) (s s' : Stream) : Type 0 where
  pub incoming : s'.incoming ≡ rest
  pub outgoing : s'.outgoing ≡ s.outgoing
  pub is_closed : s'.is_closed ≡ s.is_closed
  pub flowing : IsFlowing s'

pub Took-trans : (xs ys : List ℕ) (s s1 s2 : Stream) → Took xs s s1 → Took ys s1 s2 → Took ys s s2
Took-trans xs ys s s1 s2 a b = record {
  incoming = b.incoming;
  outgoing = b.outgoing ∙ a.outgoing;
  is_closed = b.is_closed ∙ a.is_closed;
  flowing = b.flowing;
}

Took-refl : (s : Stream) → IsFlowing s → Took s.incoming s s
Took-refl s f = record { incoming = refl; outgoing = refl; is_closed = refl; flowing = f }

pub read_exact_lem :
    (n : ℕ) (xs rest : List ℕ) (s : Stream)
    → IsFlowing s
    → s.incoming ≡ xs ++ rest
    → length xs ≡ n
    → 0 < n
    → n < 2 ^ 31
    → (s' : Stream) × (read_exact n s ≡ (some xs, s')) × Took rest s s'
unfolding read_exact
read_exact_lem n xs rest s f e size pos small =
    let enough : n ≤ length s.incoming = omega (arith, ap length e, length-append xs rest) in
    let (count, bytes, now) = (read_fix_size_lem s n f small).0 enough in
    let not_none : (n == 0) ≡ false = ne→== n 0 (λ q. omega arith) in
    let all : (read_fix_size s n).1 ≡ xs =
      bytes ∙ ap (take n) e ∙ take-append_ge n 0 xs rest (omega (arith, size)) ∙ append-nil xs in
    (
      (read_fix_size s n).2,
      rw (count, not_none, all) refl,
      record {
        incoming = now.incoming ∙ ap (drop n) e ∙ drop-append_ge n 0 xs rest (omega (arith, size));
        outgoing = now.outgoing;
        is_closed = now.is_closed;
        flowing = now.flowing;
      },
    )

read_length_lem :
    (fin : Bool) (opcode : ℕ) (masked : Bool) (size : ℕ) (rest : List ℕ) (s : Stream)
    → IsFlowing s
    → size < 2 ^ 31
    → s.incoming ≡ length_bytes size ++ rest
    → (s' : Stream) × (read_length (data_head fin opcode masked size) s ≡ (some size, s'))
      × Took rest s s'
unfolding read_length
read_length_lem fin opcode masked size rest s f small e = elim (Bool-cases (ltb size 126)) [
  | inl short ↦
      let lt = ltb→lt size 126 short in
      let a : (size == 126) ≡ false = ne→== size 126 (λ q. omega (arith, lt)) in
      let b : (size == 127) ≡ false = ne→== size 127 (λ q. omega (arith, lt)) in
      rw (short, a, b)
        (
          s,
          refl,
          record {
            incoming =
                e
                ∙ ap
                    (λ t.
                      (if t
                        then []
                        else if ltb size 65536
                        then image false 2 size
                        else image false 8 size)
                      ++ rest)
                    short;
            outgoing = refl;
            is_closed = refl;
            flowing = f;
          },
        )
  | inr long ↦ elim (Bool-cases (ltb size 65536)) [
    | inl middle ↦
        let e' =
          e
          ∙ ap
              (λ t.
                (if t
                  then []
                  else if ltb size 65536
                  then image false 2 size
                  else image false 8 size)
                ++ rest)
              long
          ∙ ap (λ t. (if t then image false 2 size else image false 8 size) ++ rest) middle in
        let (s', got, t) =
          read_exact_lem 2 (image false 2 size) rest s f e' (length-image false 2 size)
            (omega arith) (omega arith) in
        let value : byteswap 2 (from_memory (image false 2 size)) ≡ size =
          loaded_image false 2 size (omega (arith, ltb→lt size 65536 middle)) in
        rw (long, middle) (s', bind_lem (read_exact 2) _ got ∙ ap (λ z. (some z, s')) value, t)
    | inr longest ↦
        let e' =
          e
          ∙ ap
              (λ t.
                (if t
                  then []
                  else if ltb size 65536
                  then image false 2 size
                  else image false 8 size)
                ++ rest)
              long
          ∙ ap (λ t. (if t then image false 2 size else image false 8 size) ++ rest) longest in
        let (s', got, t) =
          read_exact_lem 8 (image false 8 size) rest s f e' (length-image false 8 size)
            (omega arith) (omega arith) in
        let value : byteswap 8 (from_memory (image false 8 size)) ≡ size =
          loaded_image false 8 size (omega (arith, small)) in
        rw (long, longest) (s', bind_lem (read_exact 8) _ got ∙ ap (λ z. (some z, s')) value, t)
  ]
]

-- Undoing the mask, where there is one.
abbrev unmasked : Bool → List ℕ → List ℕ → List ℕ
unfolding apply_mask
unmasked masked mask xs = if masked then apply_mask 0 mask xs else xs

unmasked-masked_bytes :
    (masked : Bool) (mask xs : List ℕ) → unmasked masked mask (masked_bytes masked mask xs) ≡ xs
unfolding unmasked masked_bytes
unmasked-masked_bytes true mask xs = apply_mask_twice 0 mask xs
unmasked-masked_bytes false mask xs = refl

abbrev mask_read : Bool → List ℕ → List ℕ
mask_read masked mask = if masked then mask else 0 ∷ 0 ∷ 0 ∷ 0 ∷ []

unmasked-mask_read :
    (masked : Bool) (mask xs : List ℕ)
    → unmasked masked (mask_read masked mask) xs ≡ unmasked masked mask xs
unfolding unmasked
unmasked-mask_read true mask xs = refl
unmasked-mask_read false mask xs = refl

read_mask_lem :
    (h : WsFrameHead) (mask rest : List ℕ) (s : Stream)
    → IsFlowing s
    → length mask ≡ 4
    → s.incoming ≡ mask_bytes h.mask mask ++ rest
    → (s' : Stream) × (read_mask h s ≡ (some (mask_read h.mask mask), s')) × Took rest s s'
unfolding read_mask
read_mask_lem h mask rest s f size e = elim (Bool-cases h.mask) [
  | inl on ↦
      let (s', got, t) =
        read_exact_lem 4 mask rest s f (e ∙ ap (λ z. mask_bytes z mask ++ rest) on) size
          (omega arith) (omega arith) in
      rw on (s', got, t)
  | inr off ↦ rw off (
    s,
    refl,
    record {
      incoming = e ∙ ap (λ z. mask_bytes z mask ++ rest) off;
      outgoing = refl;
      is_closed = refl;
      flowing = f;
    },
  )
]

-- The conditions under which a receiver takes a frame with the data `xs` behind the data `so_far`.
pub record Accepts (max_size : ℕ) (client masked : Bool) (so_far mask xs : List ℕ) : Type 0 where
  pub allowed : (not client && not masked) ≡ false
  pub mask_size : length mask ≡ 4
  pub some_data : 0 < length xs
  pub fits : length so_far + length xs < max_size
  pub limit : max_size ≤ 2 ^ 31

pub read_payload_lem :
    (max_size : ℕ) (client fin : Bool) (opcode : ℕ) (masked : Bool) (so_far mask xs rest : List ℕ)
    (s : Stream)
    → IsFlowing s
    → Accepts max_size client masked so_far mask xs
    → s.incoming
      ≡ length_bytes (length xs)
        ++ (mask_bytes masked mask ++ (masked_bytes masked mask xs ++ rest))
    → (s' : Stream) × (read_payload max_size client
          (data_head fin opcode masked (length xs))
          so_far
          s
        ≡ (some (so_far ++ xs), s'))
      × Took rest s s'
unfolding read_payload unmasked
read_payload_lem max_size client fin opcode masked so_far mask xs rest s f c e =
    let body = masked_bytes masked mask xs in
    let size = length-masked_bytes masked mask xs in
    let h = data_head fin opcode masked (length xs) in
    let (s1, e1, t1) =
      read_length_lem fin opcode masked (length xs) (mask_bytes masked mask ++ (body ++ rest)) s f
        (omega (arith, c.fits, c.limit)) e in
    let (s2, e2, t2) = read_mask_lem h mask (body ++ rest) s1 t1.flowing c.mask_size t1.incoming in
    let (s3, e3, t3) =
      read_exact_lem (length xs) body rest s2 t2.flowing t2.incoming size c.some_data
        (omega (arith, c.fits, c.limit)) in
    let sum : add64 (length so_far) (length xs) ≡ length so_far + length xs =
      add64_no_wrap (length so_far) (length xs) (omega (arith, c.fits, c.limit)) in
    let small : leb max_size (length so_far + length xs) ≡ false =
      lt→leb max_size (length so_far + length xs) c.fits in
    let back : unmasked masked (mask_read masked mask) body ≡ xs =
      unmasked-mask_read masked mask body ∙ unmasked-masked_bytes masked mask xs in
    (
      s3,
      ap
            (λ t.
              (if t then (λ z. (none, z)) else (do
                size ← read_length h
                if leb max_size (add64 (length so_far) size) then (λ z. (none, z)) else (do
                  mask ← read_mask h
                  bytes ← read_exact size
                  give (so_far ++ (if h.mask then apply_mask 0 mask bytes else bytes)))))
                s)
            c.allowed
          ∙ bind_lem (read_length h) _ e1
          ∙ rw (sum, small)
              (bind_lem (read_mask h) _ e2
                ∙ bind_lem (read_exact (length xs)) _ e3
                ∙ ap (λ z. (some (so_far ++ z), s3)) back),
      Took-trans (body ++ rest) rest s s2 s3
          (Took-trans (mask_bytes masked mask ++ (body ++ rest)) (body ++ rest) s s1 s2 t1 t2) t3,
    )
