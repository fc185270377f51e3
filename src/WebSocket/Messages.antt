-- ===== src/WebSocket/Messages.antt =====
-- `build_ws_frame` and the frames of a client, read by `parse_ws_frames`.
use cpp_meet.Common.{
  ℕ, suc, ◌+◌, ◌%◌, ◌^◌, ◌<◌, ◌≡◌, refl, ap, ap₂, sym, ◌∙◌, inl, inr, List, [], ◌∷◌, ◌++◌, map,
  arith, length, take, drop, All, append_assoc, drop-append, drop-drop, length-append, take-append,
}
use cpp_meet.Common.Bits.{bit_xor_cancel}
use cpp_meet.Wire.{Bytes, byte_at}
use cpp_meet.WebSocket.{
  build_ws_frame, frame, len_bytes, mask_size, message, next_frame, parse_ws_frames, prepend,
  respond, unmask,
}
use cpp_meet.WebSocket.Lengths.{marked, mask_bit, masked_payload, plain_payload, whole_frame}
use cpp_meet.WebSocket.Loop.{round_open}

-- A frame of a client: the opcode, the length, four bytes of mask, and the masked payload.
abbrev pub client_frame : ℕ → Bytes → Bytes → Bytes
client_frame opcode mask msg =
    (128 + opcode) ∷ (marked 128 (len_bytes (length msg)) ++ (mask ++ unmask mask 0 msg))

length-unmask : (mask : Bytes) (i : ℕ) (bs : Bytes) → length (unmask mask i bs) ≡ length bs
unfolding unmask
length-unmask mask i [] = refl
length-unmask mask i (b ∷ bs) = ap suc (length-unmask mask (suc i) bs)

unmask_twice : (mask : Bytes) (i : ℕ) (bs : Bytes) → unmask mask i (unmask mask i bs) ≡ bs
unfolding unmask
unmask_twice mask i [] = refl
unmask_twice mask i (b ∷ bs) =
    ap₂ (λ (x : ℕ) (xs : Bytes). x ∷ xs) (bit_xor_cancel b (byte_at mask (i % 4)))
      (unmask_twice mask (suc i) bs)

frame_eq : {i j : ℕ} {x y u v : Bytes} → i ≡ j → x ≡ y → u ≡ v → frame i x u ≡ frame j y v
frame_eq p q r = cc (p, q, r)

respond_text : (fd : ℕ) (msg : Bytes) → respond fd 1 msg ≡ message fd msg ∷ []
unfolding respond
respond_text fd msg = refl

marked_zero : (l : Bytes) → marked 0 l ≡ l
marked_zero [] = refl
marked_zero (c ∷ cs) = ap (λ (x : ℕ). x ∷ cs) (omega arith)

-- What the server sends, read by the same loop.
pub next_frame-build_ws_frame :
    (msg rest : Bytes)
    → length msg < 2 ^ 63
    → next_frame (build_ws_frame msg ++ rest) ≡ frame 1 msg rest
unfolding build_ws_frame
next_frame-build_ws_frame msg rest short =
    let n = length msg in
    let t = msg ++ rest in
    let unmarked : build_ws_frame msg ++ rest ≡ 129 ∷ (marked 0 (len_bytes n) ++ t) =
      ap (λ (l : Bytes). 129 ∷ l)
        (append_assoc (len_bytes n) msg rest
          ∙ ap (λ l. l ++ t) (sym (marked_zero (len_bytes n)))) in
    let fits : n < 2 ^ 64 = omega arith in
    let no_mask : mask_size (129 ∷ (marked 0 (len_bytes n) ++ t)) ≡ 0 =
      ground (arith, mask_bit 129 0 n t (inl refl) fits) in
    ap next_frame unmarked
    ∙ whole_frame 129 0 n t (inl refl) fits short (omega (arith, no_mask, length-append msg rest))
    ∙ ap₂ (λ (x y : Bytes). frame 1 x y)
        (plain_payload 129 0 n t (inl refl) fits refl ∙ take-append msg rest n refl)
        (ap (λ k. drop (k + n) t) no_mask ∙ drop-append msg rest (0 + n) (omega arith))

pub next_frame-client_frame :
    (opcode : ℕ) (mask msg rest : Bytes)
    → opcode < 16
    → length mask ≡ 4
    → length msg < 2 ^ 63
    → next_frame (client_frame opcode mask msg ++ rest) ≡ frame opcode msg rest
next_frame-client_frame opcode mask msg rest small four short =
    let n = length msg in
    let coded = unmask mask 0 msg in
    let t = mask ++ (coded ++ rest) in
    let b0 = 128 + opcode in
    let size : length coded ≡ n = length-unmask mask 0 msg in
    let split : client_frame opcode mask msg ++ rest ≡ b0 ∷ (marked 128 (len_bytes n) ++ t) =
      ap (λ (l : Bytes). b0 ∷ l)
        (append_assoc (marked 128 (len_bytes n)) (mask ++ coded) rest
          ∙ ap (λ l. marked 128 (len_bytes n) ++ l) (append_assoc mask coded rest)) in
    let fits : n < 2 ^ 64 = omega arith in
    let with_mask : mask_size (b0 ∷ (marked 128 (len_bytes n) ++ t)) ≡ 4 =
      ground (arith, mask_bit b0 128 n t (inr refl) fits) in
    let behind : drop 4 t ≡ coded ++ rest = drop-append mask (coded ++ rest) 4 (sym four) in
    let decoded : unmask (take 4 t) 0 (take n (drop 4 t)) ≡ msg =
      ap₂ (λ (x y : Bytes). unmask x 0 y) (take-append mask (coded ++ rest) 4 (sym four))
        (ap (take n) behind ∙ take-append coded rest n (sym size))
      ∙ unmask_twice mask 0 msg in
    let left : drop (4 + n) t ≡ rest =
      sym (drop-drop n 4 (4 + n) t (omega arith))
      ∙ ap (drop n) behind
      ∙ drop-append coded rest n (sym size) in
    ap next_frame split
    ∙ whole_frame b0 128 n t (inr refl) fits short (
        omega (
          arith,
          with_mask,
          four,
          size,
          length-append mask (coded ++ rest),
          length-append coded rest,
        ))
    ∙ frame_eq (omega arith) (masked_payload b0 128 n t (inr refl) fits refl ∙ decoded)
        (ap (λ k. drop (k + n) t) with_mask ∙ left)

-- The frames that a client sends, one behind the other: each a mask and a text.
abbrev pub stream : List (Bytes × Bytes) → Bytes
stream [] = []
stream ((mask, msg) ∷ frames) = client_frame 1 mask msg ++ stream frames

abbrev pub IsSendable : Bytes × Bytes → Type 0
IsSendable (mask, msg) = (length mask ≡ 4) × (length msg < 2 ^ 63)

-- They are delivered in order, and the loop goes on with what stands behind them.
pub parse_ws_frames-stream :
    (fd : ℕ) (frames : List (Bytes × Bytes)) (tail : Bytes)
    → All IsSendable frames
    → parse_ws_frames fd (stream frames ++ tail)
      ≡ prepend (map (λ f. message fd f.1) frames) (parse_ws_frames fd tail)
parse_ws_frames-stream fd [] tail h = refl
parse_ws_frames-stream fd ((mask, msg) ∷ frames) tail (h, hs) =
    let later = stream frames ++ tail in
    ap (parse_ws_frames fd) (append_assoc (client_frame 1 mask msg) (stream frames) tail)
    ∙ round_open fd (client_frame 1 mask msg ++ later) 1 msg later
        (next_frame-client_frame 1 mask msg later (omega arith) h.0 h.1) refl
    ∙ ap₂ prepend (respond_text fd msg) (parse_ws_frames-stream fd frames tail hs)
