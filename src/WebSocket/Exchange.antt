-- ===== src/WebSocket/Exchange.antt =====
-- Whole messages of src/base/net/http/ws_session.cc: what WSSendMessage sends, in one frame or in
-- several with control frames in between, WSRecvMessage gives back.
use agent_link_coro.Prelude.{
  ℕ, zero, suc, ◌+◌, ◌^◌, ◌≤◌, ◌<◌, ◌≡◌, ◌≢◌, refl, sym, ap, ◌∙◌, Bool, true, false, not, ◌&&◌,
  List, [], ◌∷◌, ◌++◌, some, arith, ◌==◌, if◌then◌else◌, length, append_assoc, append-nil,
  length-append, ne→==,
}
use agent_link_coro.Stream.{Stream}
use agent_link_coro.Stream.FixSize.{IsFlowing}
use agent_link_coro.ByteArray.Fixed.{memory_of}
use agent_link_coro.ByteArray.Fixed.RoundTrip.{length-memory_of}
use agent_link_coro.WebSocket.{
  head_bytes, pong_head, ping_head, Received, message, receive_loop, receive_message, send_message,
}
use agent_link_coro.WebSocket.Frame.{frame_bytes}
use agent_link_coro.WebSocket.Send.{send_message_lem}
use agent_link_coro.WebSocket.Receive.{Accepts}
use agent_link_coro.WebSocket.Rounds.{next_opcode, receive_frame, receive_ping, receive_pong}

-- What comes before the last frame of a message: a fragment with its mask, or a control frame.
pub data Piece : Type 0 where
  fragment : (mask xs : List ℕ) → Piece
  ping pong : Piece

-- The bytes of a message: its first data frame has the opcode, the others continue it.
unfoldable pub wire : Bool → ℕ → List Piece → List ℕ → List ℕ → List ℕ
unfolding frame_bytes
wire masked code [] mask xs = frame_bytes true code masked mask xs
wire masked code (fragment m ys ∷ ps) mask xs =
    frame_bytes false code masked m ys ++ wire masked 0 ps mask xs
wire masked code (ping ∷ ps) mask xs = head_bytes ping_head ++ wire masked code ps mask xs
wire masked code (pong ∷ ps) mask xs = head_bytes pong_head ++ wire masked code ps mask xs

abbrev pub content : List Piece → List ℕ → List ℕ
content [] xs = xs
content (fragment m ys ∷ ps) xs = ys ++ content ps xs
content (ping ∷ ps) xs = content ps xs
content (pong ∷ ps) xs = content ps xs

-- One pong for each ping.
abbrev pub answers : List Piece → List ℕ
answers [] = []
answers (fragment m ys ∷ ps) = answers ps
answers (ping ∷ ps) = head_bytes pong_head ++ answers ps
answers (pong ∷ ps) = answers ps

-- No fragment is empty, and every mask has 4 bytes.
abbrev pub ArePieces : List Piece → Type 0
ArePieces [] = Unit
ArePieces (fragment m ys ∷ ps) = (length m ≡ 4) × (0 < length ys) × ArePieces ps
ArePieces (ping ∷ ps) = ArePieces ps
ArePieces (pong ∷ ps) = ArePieces ps

abbrev count : List Piece → ℕ
count [] = 0
count (p ∷ ps) = suc (count ps)

wire_bound :
    (masked : Bool) (code : ℕ) (ps : List Piece) (mask xs : List ℕ)
    → count ps < length (wire masked code ps mask xs)
unfolding wire frame_bytes
wire_bound masked code [] mask xs = omega arith
wire_bound masked code (fragment m ys ∷ ps) mask xs = omega (
  arith,
  wire_bound masked 0 ps mask xs,
  length-append (frame_bytes false code masked m ys) (wire masked 0 ps mask xs),
)
wire_bound masked code (ping ∷ ps) mask xs = omega (arith, wire_bound masked code ps mask xs)
wire_bound masked code (pong ∷ ps) mask xs = omega (arith, wire_bound masked code ps mask xs)

module _ (max_size : ℕ) (client masked : Bool) (allowed : (not client && not masked) ≡ false)
    (limit : max_size ≤ 2 ^ 31) (mask xs : List ℕ) (mask_size : length mask ≡ 4)
    (some_data : 0 < length xs) (rest : List ℕ) where
  -- How the loop ends that has taken `so_far` and gets the pieces `ps` and the last frame.
  abbrev Ends : Received → ℕ → List ℕ → List Piece → Stream → Type 0
  Ends r opcode so_far ps s =
      (s' : Stream) × (r ≡ message opcode (so_far ++ content ps xs) s')
      × (s'.incoming ≡ rest)
      × (s'.outgoing ≡ s.outgoing ++ answers ps)

  opcode_kept : (op : ℕ) (t : Bool) → (if t && false then 0 else op) ≡ op
  opcode_kept op true = refl
  opcode_kept op false = refl

  receive_wire :
      (fuel opcode code : ℕ) (so_far : List ℕ) (ps : List Piece) (s : Stream)
      → IsFlowing s
      → code < 3
      → next_opcode opcode code ≢ 0
      → count ps < fuel
      → ArePieces ps
      → length so_far + length (content ps xs) < max_size
      → s.incoming ≡ wire masked code ps mask xs ++ rest
      → Ends
          (receive_loop fuel max_size client opcode so_far s)
          (next_opcode opcode code)
          so_far
          ps
          s
  unfolding wire
  receive_wire zero opcode code so_far ps s f small known lt ok fits e = absurd (omega arith)
  receive_wire (suc fuel) opcode code so_far [] s f small known lt ok fits e =
      let c : Accepts max_size client masked so_far mask xs = record {
        allowed = allowed;
        mask_size = mask_size;
        some_data = some_data;
        fits = fits;
        limit = limit;
      } in
      let (s', got, t) =
        receive_frame fuel max_size client opcode so_far true code masked mask xs rest s f small c
          e in
      (s', got, t.incoming, t.outgoing ∙ sym (append-nil s.outgoing))
  receive_wire (suc fuel) opcode code so_far (fragment m ys ∷ ps) s f small known lt ok fits e =
      let c : Accepts max_size client masked so_far m ys = record {
        allowed = allowed;
        mask_size = ok.0;
        some_data = ok.1;
        fits = omega (arith, fits, length-append ys (content ps xs));
        limit = limit;
      } in
      let after = wire masked 0 ps mask xs ++ rest in
      let (s1, got, t) =
        receive_frame fuel max_size client opcode so_far false code masked m ys after s f small c
          (e ∙ append_assoc (frame_bytes false code masked m ys) (wire masked 0 ps mask xs) rest) in
      let op = next_opcode opcode code in
      let same : next_opcode op 0 ≡ op = opcode_kept op (op == 0) in
      let (s', done, left, sent) =
        receive_wire fuel op 0 (so_far ++ ys) ps s1 t.flowing (omega arith)
          (λ q. known (sym same ∙ q)) (omega arith) ok.2
          (omega (arith, fits, length-append so_far ys, length-append ys (content ps xs)))
          t.incoming in
      (
        s',
        got
            ∙ done
            ∙ ap (λ z. message z ((so_far ++ ys) ++ content ps xs) s') same
            ∙ ap (λ z. message op z s') (append_assoc so_far ys (content ps xs)),
        left,
        sent ∙ ap (λ z. z ++ answers ps) t.outgoing,
      )
  receive_wire (suc fuel) opcode code so_far (ping ∷ ps) s f small known lt ok fits e =
      let after = wire masked code ps mask xs ++ rest in
      let (s1, got, now, out, f1) = receive_ping fuel max_size client opcode so_far after s f e in
      let (s', done, left, sent) =
        receive_wire fuel opcode code so_far ps s1 f1 small known (omega arith) ok fits now in
      (
        s',
        got ∙ done,
        left,
        sent
            ∙ ap (λ z. z ++ answers ps) out
            ∙ append_assoc s.outgoing (head_bytes pong_head) (answers ps),
      )
  receive_wire (suc fuel) opcode code so_far (pong ∷ ps) s f small known lt ok fits e =
      let after = wire masked code ps mask xs ++ rest in
      let (s1, got, t) = receive_pong fuel max_size client opcode so_far after s f e in
      let (s', done, left, sent) =
        receive_wire fuel opcode code so_far ps s1 t.flowing small known (omega arith) ok fits
          t.incoming in
      (s', got ∙ done, left, sent ∙ ap (λ z. z ++ answers ps) t.outgoing)

pub receive_message_lem :
    (max_size : ℕ) (client masked : Bool) (opcode : ℕ) (ps : List Piece) (mask xs rest : List ℕ)
    (s : Stream)
    → (not client && not masked) ≡ false
    → max_size ≤ 2 ^ 31
    → 0 < opcode
    → opcode < 3
    → ArePieces (fragment mask xs ∷ ps)
    → length (content ps xs) < max_size
    → IsFlowing s
    → s.incoming ≡ wire masked opcode ps mask xs ++ rest
    → (s' : Stream) × (receive_message max_size client s ≡ message opcode (content ps xs) s')
      × (s'.incoming ≡ rest)
      × (s'.outgoing ≡ s.outgoing ++ answers ps)
unfolding receive_message
receive_message_lem max_size client masked opcode ps mask xs rest s allowed limit pos small ok fits
      f e =
    let same : next_opcode 0 opcode ≡ opcode =
      ap (λ t. if not t then opcode else 0) (ne→== opcode 0 (λ q. omega arith)) in
    let (s', done, left, sent) =
      receive_wire max_size client masked allowed limit mask xs ok.0 ok.1 rest
        (suc (length s.incoming)) 0 opcode [] ps s f small (λ q. omega (arith, same, q))
        (omega (
          arith,
          wire_bound masked opcode ps mask xs,
          ap length e,
          length-append (wire masked opcode ps mask xs) rest,
        ))
        ok.2 (omega (arith, fits)) e in
    (s', done ∙ ap (λ z. message z (content ps xs) s') same, left, sent)

-- A message of text or binary data that is not empty, and so short that its length and 2 are an
-- int32_t, sent in one call of WSSendMessage by a client or a server over a flowing stream: the call
-- returns its length and 2, and the message is what WSRecvMessage gives at the other end of another
-- flowing stream, where the largest size is above its length and at most 2 ^ 31.
pub send-receive :
    (random max_size opcode : ℕ) (xs : List ℕ) (client : Bool) (s r : Stream)
    → 0 < opcode
    → opcode < 3
    → 0 < length xs
    → length xs + 2 < 2 ^ 31
    → length xs < max_size
    → max_size ≤ 2 ^ 31
    → IsFlowing s
    → IsFlowing r
    → s.outgoing ≡ []
    → r.incoming ≡ (send_message random opcode xs client true s).1.outgoing
    → ((send_message random opcode xs client true s).0 ≡ some (length xs + 2))
      × ((r' : Stream) × (receive_message max_size (not client) r ≡ message opcode xs r')
          × (r'.incoming ≡ []))
unfolding wire
send-receive random max_size opcode xs client s r pos small some_data returned fits limit fs fr
      fresh joined =
    let (s', sent, w) =
      send_message_lem random opcode xs client true s fs some_data (omega arith) in
    let bytes : r.incoming ≡ wire client opcode [] (memory_of 4 random) xs ++ [] =
      joined
      ∙ ap (λ z. (z.1).outgoing) sent
      ∙ w.outgoing
      ∙ ap (λ z. z ++ wire client opcode [] (memory_of 4 random) xs) fresh
      ∙ sym (append-nil (wire client opcode [] (memory_of 4 random) xs)) in
    let (r', got, left, out) =
      receive_message_lem max_size (not client) client opcode [] (memory_of 4 random) xs [] r
        (opposite client) limit pos small (length-memory_of 4 random, some_data, tt) fits fr
        bytes in
    (ap (λ z. z.0) sent, (r', got, left))
  where
    opposite : (c : Bool) → (not (not c) && not c) ≡ false
    opposite true = refl
    opposite false = refl
