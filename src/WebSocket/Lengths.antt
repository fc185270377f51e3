-- ===== src/WebSocket/Lengths.antt =====
-- The length of a frame: what `build_ws_frame` writes is what `parse_ws_frames` reads, and a length near
-- 2 ^ 64 that wraps the size of the frame.
use native.Mathlib.Nat.{div-div-eq-div-mul, div-le_self, pow-suc}
use cpp_meet.Common.{
  ℕ, zero, suc, ◌+◌, ◌*◌, ◌/◌, ◌%◌, ◌^◌, ◌≤◌, ◌<◌, ◌≡◌, refl, ap, ap₂, sym, ◌∙◌, ◌⊎◌, inl, inr,
  some, [], ◌∷◌, ◌++◌, ltb, arith, length, take, drop, Bool-cases, ltb→lt, ltb→le, drop-append,
  drop-drop, length-append, take-append,
}
use cpp_meet.Wire.{Bytes, byte_at, read_u16}
use cpp_meet.WebSocket.{
  too_long, be_bytes, frame, frame_head, len_bytes, mask_size, next_frame, payload, read_be,
  sized_frame, unmask,
}
use cpp_meet.WebSocket.Frame.{next_frame_lem}

double : (j k : ℕ) → k ≡ suc j → 2 ^ k ≡ 2 ^ j * 2
double j k e = ap (λ t. 2 ^ t) e ∙ pow-suc 2 j

byte_shift : (j : ℕ) → 2 ^ (8 + j) ≡ 2 ^ j * 2 ^ 8
byte_shift j = omega (
  arith,
  double j (1 + j) (omega arith),
  double (1 + j) (2 + j) (omega arith),
  double (2 + j) (3 + j) (omega arith),
  double (3 + j) (4 + j) (omega arith),
  double (4 + j) (5 + j) (omega arith),
  double (5 + j) (6 + j) (omega arith),
  double (6 + j) (7 + j) (omega arith),
  double (7 + j) (8 + j) (omega arith),
)

shift_step : (n k : ℕ) → n / 2 ^ (8 * suc k) ≡ n / 2 ^ (8 * k) / 2 ^ 8
shift_step n k =
    let e : 8 * suc k ≡ 8 + 8 * k = omega arith in
    ap (λ t. n / 2 ^ t) e
    ∙ ap (λ t. n / t) (byte_shift (8 * k))
    ∙ sym (div-div-eq-div-mul n (2 ^ (8 * k)) (2 ^ 8))

-- Eight bytes, of which the rest is read behind what the first ones gave.
read_be-be_bytes : (k n : ℕ) → n < 2 ^ 64 → read_be (n / 2 ^ (8 * k)) (be_bytes k n) ≡ n
unfolding read_be be_bytes
read_be-be_bytes zero n h = omega arith
read_be-be_bytes (suc k) n h =
    let x = n / 2 ^ (8 * k) in
    let small : x ≤ n = div-le_self n (2 ^ (8 * k)) in
    let joined : (n / 2 ^ (8 * suc k) * 2 ^ 8 + x % 2 ^ 8) % 2 ^ 64 ≡ x =
      omega (arith, shift_step n k, small, h) in
    ap (λ t. read_be t (be_bytes k n)) joined ∙ read_be-be_bytes k n h

length-be_bytes : (k n : ℕ) → length (be_bytes k n) ≡ k
unfolding be_bytes
length-be_bytes zero n = refl
length-be_bytes (suc k) n = ap suc (length-be_bytes k n)

-- The mask bit, in front of the length.
abbrev pub marked : ℕ → Bytes → Bytes
marked m [] = []
marked m (c ∷ cs) = (m + c) ∷ cs

module _ (b0 c : ℕ) (t : Bytes) where
  head_short : c % 128 < 126 → frame_head (b0 ∷ c ∷ t) ≡ some (c % 128, 2)
  unfolding frame_head
  head_short h = ground arith

  head_medium :
      (x y : ℕ) → c % 128 ≡ 126 → frame_head (b0 ∷ c ∷ x ∷ y ∷ t) ≡ some (x * 2 ^ 8 + y, 4)
  unfolding frame_head read_u16
  head_medium x y h = ground arith

  head_long :
      (xs : Bytes)
      → 8 ≡ length xs
      → c % 128 ≡ 127
      → frame_head (b0 ∷ c ∷ (xs ++ t)) ≡ some (read_be 0 xs, 10)
  unfolding frame_head
  head_long xs eight h =
      ground (arith, length-append xs t, ap (read_be 0) (take-append xs t 8 eight))

len_bytes-cases :
    (n : ℕ)
    → ((n < 126) × (len_bytes n ≡ n ∷ []))
      ⊎ ((n < 2 ^ 16) × (len_bytes n ≡ 126 ∷ (n / 2 ^ 8 % 2 ^ 8) ∷ (n % 2 ^ 8) ∷ []))
      ⊎ (len_bytes n ≡ 127 ∷ be_bytes 8 n)
unfolding len_bytes
len_bytes-cases n = elim (Bool-cases (ltb n 126)) [
  | inl h ↦ inl (ltb→lt n 126 h, ground arith)
  | inr h ↦ elim (Bool-cases (ltb 65535 n)) [
    | inl g ↦ inr (inr (ground arith))
    | inr g ↦ inr (inl (omega (arith, ltb→le 65535 n g), ground arith))
  ]
]

length-marked : (m : ℕ) (l : Bytes) → length (marked m l) ≡ length l
length-marked m [] = refl
length-marked m (c ∷ cs) = refl

module _ (b0 m n : ℕ) (t : Bytes) (bit : (m ≡ 0) ⊎ (m ≡ 128)) (fits : n < 2 ^ 64) where
  abbrev buf : Bytes
  buf = b0 ∷ (marked m (len_bytes n) ++ t)

  abbrev with_len : Bytes → Bytes
  with_len l = b0 ∷ (marked m l ++ t)

  zero_start : read_be 0 (be_bytes 8 n) ≡ read_be (n / 2 ^ (8 * 8)) (be_bytes 8 n)
  zero_start = ap (λ x. read_be x (be_bytes 8 n)) (omega arith)

  frame_head-len_bytes : frame_head buf ≡ some (n, suc (length (len_bytes n)))
  frame_head-len_bytes = elim (len_bytes-cases n) [
    | inl (h, e) ↦
        ap (λ l. frame_head (with_len l)) e
        ∙ head_short b0 (m + n) t (omega arith)
        ∙ ap₂ (λ (i j : ℕ). some (i, j)) (omega arith) (ap (λ l. suc (length l)) (sym e))
    | inr (inl (h, e)) ↦
        ap (λ l. frame_head (with_len l)) e
        ∙ head_medium b0 (m + 126) t (n / 2 ^ 8 % 2 ^ 8) (n % 2 ^ 8) (omega arith)
        ∙ ap₂ (λ (i j : ℕ). some (i, j)) (omega arith) (ap (λ l. suc (length l)) (sym e))
    | inr (inr e) ↦
        ap (λ l. frame_head (with_len l)) e
        ∙ head_long b0 (m + 127) t (be_bytes 8 n) (sym (length-be_bytes 8 n)) (omega arith)
        ∙ ap₂ (λ (i j : ℕ). some (i, j)) (zero_start ∙ read_be-be_bytes 8 n fits)
            (sym (ap (λ l. suc (length l)) e ∙ ap (λ k. suc (suc k)) (length-be_bytes 8 n)))
  ]

  pub mask_bit : byte_at buf 1 / 128 ≡ m / 128
  mask_bit = elim (len_bytes-cases n) [
    | inl (h, e) ↦ ap (λ l. byte_at (with_len l) 1 / 128) e ∙ omega arith
    | inr (inl (h, e)) ↦ ap (λ l. byte_at (with_len l) 1 / 128) e ∙ omega arith
    | inr (inr e) ↦ ap (λ l. byte_at (with_len l) 1 / 128) e ∙ omega arith
  ]

  header_size : (1 ≤ length (len_bytes n)) × (length (len_bytes n) ≤ 9)
  header_size = elim (len_bytes-cases n) [
    | inl (h, e) ↦ omega (arith, ap length e)
    | inr (inl (h, e)) ↦ omega (arith, ap length e)
    | inr (inr e) ↦ omega (arith, ap length e, length-be_bytes 8 n)
  ]

  drop_header : drop (suc (length (len_bytes n))) buf ≡ t
  drop_header =
      drop-append (marked m (len_bytes n)) t (length (len_bytes n))
        (sym (length-marked m (len_bytes n)))

  pub next_frame_sized : next_frame buf ≡ sized_frame buf (some (n, suc (length (len_bytes n))))
  next_frame_sized =
      next_frame_lem buf (
        omega (
          arith,
          length-append (marked m (len_bytes n)) t,
          length-marked m (len_bytes n),
          header_size,
        ))
      ∙ ap (sized_frame buf) frame_head-len_bytes

  length-buf : length buf ≡ suc (length (len_bytes n)) + length t
  length-buf =
      omega (arith, length-append (marked m (len_bytes n)) t, length-marked m (len_bytes n))

  -- A frame that is there in full.
  pub whole_frame :
      n < 2 ^ 63
      → mask_size buf + n ≤ length t
      → next_frame buf
        ≡ frame (b0 % 16) (payload buf n (suc (length (len_bytes n)))) (drop (mask_size buf + n) t)
  unfolding sized_frame
  whole_frame short room =
      let h = suc (length (len_bytes n)) in
      let behind : drop (h + mask_size buf + n) buf ≡ drop (mask_size buf + n) t =
        sym (drop-drop (mask_size buf + n) h (h + mask_size buf + n) buf (omega arith))
        ∙ ap (drop (mask_size buf + n)) drop_header in
      next_frame_sized ∙ ground (arith, length-buf, header_size, behind)

  pub plain_payload : m ≡ 0 → payload buf n (suc (length (len_bytes n))) ≡ take n t
  unfolding payload
  plain_payload e = ground (arith, mask_bit, ap (take n) drop_header)

  pub masked_payload :
      m ≡ 128 → payload buf n (suc (length (len_bytes n))) ≡ unmask (take 4 t) 0 (take n (drop 4 t))
  unfolding payload
  masked_payload e =
      let h = suc (length (len_bytes n)) in
      let behind : drop (h + 4) buf ≡ drop 4 t =
        sym (drop-drop 4 h (h + 4) buf (omega arith)) ∙ ap (drop 4) drop_header in
      ground
        (arith, mask_bit, ap₂ (λ (x y : Bytes). unmask (take 4 x) 0 (take n y)) drop_header behind)

-- A length that wraps the total round.
pub next_frame_overflow :
    (b0 len : ℕ) (more : Bytes)
    → 2 ^ 64 ≤ len + 10
    → len < 2 ^ 64
    → next_frame (b0 ∷ 127 ∷ (be_bytes 8 len ++ more)) ≡ too_long
unfolding sized_frame
next_frame_overflow b0 len more wraps fits =
    let buf = b0 ∷ 127 ∷ (be_bytes 8 len ++ more) in
    let start : read_be 0 (be_bytes 8 len) ≡ len =
      ap (λ x. read_be x (be_bytes 8 len)) (omega arith) ∙ read_be-be_bytes 8 len fits in
    let head : frame_head buf ≡ some (len, 10) =
      head_long b0 127 more (be_bytes 8 len) (sym (length-be_bytes 8 len)) refl
      ∙ ap (λ n. some (n, 10)) start in
    next_frame_lem buf (omega arith)
    ∙ ap (sized_frame buf) head
    ∙ ground (arith, length-be_bytes 8 len, length-append (be_bytes 8 len) more)
