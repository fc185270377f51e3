-- ===== src/Wire.antt =====
-- Big-endian integers on the wire: the static helpers `write_u16`, `write_u32`, `read_u16` and
-- `read_u32` of module02_rtp_rtcp/src/rtcp_packet.cpp, which module03_stun_ice/src/stun_message.cpp
-- has once more. A byte is a number below 256 and a buffer a list of bytes; on bytes `|` of shifted
-- fields is a sum. A read past the end gives 0 here; the callers' length checks rule it out.
use cpp_meet.Common.{
  ℕ, zero, suc, ◌+◌, ◌*◌, ◌/◌, ◌%◌, ◌^◌, ◌<◌, ◌≡◌, refl, ◌∙◌, List, [], ◌∷◌, ◌++◌, arith, get_or,
  length, All, get_or-append_ge,
}

abbrev pub IsByte : ℕ → Type 0
IsByte b = b < 256

abbrev pub Bytes : Type 0
Bytes = List ℕ

-- `data[i]`
abbrev pub byte_at : Bytes → ℕ → ℕ
byte_at d i = get_or d i 0

-- What `write_u16` appends to its buffer.
unfoldable pub u16_bytes : ℕ → Bytes
u16_bytes v = (v / 2 ^ 8 % 256) ∷ (v % 256) ∷ []

-- What `write_u32` appends to its buffer.
unfoldable pub u32_bytes : ℕ → Bytes
u32_bytes v = (v / 2 ^ 24 % 256) ∷ (v / 2 ^ 16 % 256) ∷ (v / 2 ^ 8 % 256) ∷ (v % 256) ∷ []

-- `read_u16(data + i)`
unfoldable pub read_u16 : Bytes → ℕ → ℕ
read_u16 d i = byte_at d i * 2 ^ 8 + byte_at d (i + 1)

-- `read_u32(data + i)`
unfoldable pub read_u32 : Bytes → ℕ → ℕ
read_u32 d i =
    byte_at d i * 2 ^ 24
    + byte_at d (i + 1) * 2 ^ 16
    + byte_at d (i + 2) * 2 ^ 8
    + byte_at d (i + 3)

pub u16_bytes-IsByte : (v : ℕ) → All IsByte (u16_bytes v)
unfolding u16_bytes
u16_bytes-IsByte v = omega arith

pub u32_bytes-IsByte : (v : ℕ) → All IsByte (u32_bytes v)
unfolding u32_bytes
u32_bytes-IsByte v = omega arith

pub length-u16_bytes : (v : ℕ) → length (u16_bytes v) ≡ 2
unfolding u16_bytes
length-u16_bytes v = refl

pub length-u32_bytes : (v : ℕ) → length (u32_bytes v) ≡ 4
unfolding u32_bytes
length-u32_bytes v = refl

pub byte_at-lt : (d : Bytes) (i : ℕ) → All IsByte d → byte_at d i < 256
byte_at-lt [] i h = omega arith
byte_at-lt (b ∷ d) zero h = h.0
byte_at-lt (b ∷ d) (suc i) h = byte_at-lt d i h.1

pub read_u16-lt : (d : Bytes) (i : ℕ) → All IsByte d → read_u16 d i < 2 ^ 16
unfolding read_u16
read_u16-lt d i h = omega (arith, byte_at-lt d i h, byte_at-lt d (i + 1) h)

pub read_u32-lt : (d : Bytes) (i : ℕ) → All IsByte d → read_u32 d i < 2 ^ 32
unfolding read_u32
read_u32-lt d i h = omega (
  arith,
  byte_at-lt d i h,
  byte_at-lt d (i + 1) h,
  byte_at-lt d (i + 2) h,
  byte_at-lt d (i + 3) h,
)

-- Reading behind a prefix.
module _ (front rest : Bytes) where
  pub byte_at-append : (i j : ℕ) → i ≡ length front + j → byte_at (front ++ rest) i ≡ byte_at rest j
  byte_at-append i j h = get_or-append_ge front rest i j 0 h

  pub read_u16-append :
      (i j : ℕ) → i ≡ length front + j → read_u16 (front ++ rest) i ≡ read_u16 rest j
  unfolding read_u16
  read_u16-append i j h =
      omega (arith, byte_at-append i j h, byte_at-append (i + 1) (j + 1) (omega arith))

  pub read_u32-append :
      (i j : ℕ) → i ≡ length front + j → read_u32 (front ++ rest) i ≡ read_u32 rest j
  unfolding read_u32
  read_u32-append i j h = omega (
    arith,
    byte_at-append i j h,
    byte_at-append (i + 1) (j + 1) (omega arith),
    byte_at-append (i + 2) (j + 2) (omega arith),
    byte_at-append (i + 3) (j + 3) (omega arith),
  )

-- What was written is read back, at the front of any rest.
pub read_u16-u16_bytes : (v : ℕ) (rest : Bytes) → v < 2 ^ 16 → read_u16 (u16_bytes v ++ rest) 0 ≡ v
unfolding read_u16 u16_bytes
read_u16-u16_bytes v rest h = omega arith

pub read_u32-u32_bytes : (v : ℕ) (rest : Bytes) → v < 2 ^ 32 → read_u32 (u32_bytes v ++ rest) 0 ≡ v
unfolding read_u32 u32_bytes
read_u32-u32_bytes v rest h = omega arith

-- Two 16-bit fields behind a prefix.
module _ (front tail : Bytes) (a b : ℕ) (a_fits : a < 2 ^ 16) (b_fits : b < 2 ^ 16) (i : ℕ) where
  pub read_u16_first :
      i ≡ length front → read_u16 (front ++ (u16_bytes a ++ (u16_bytes b ++ tail))) i ≡ a
  read_u16_first h =
      read_u16-append front (u16_bytes a ++ (u16_bytes b ++ tail)) i 0 (omega arith)
      ∙ read_u16-u16_bytes a (u16_bytes b ++ tail) a_fits

  pub read_u16_second :
      i ≡ length front + 2 → read_u16 (front ++ (u16_bytes a ++ (u16_bytes b ++ tail))) i ≡ b
  read_u16_second h =
      read_u16-append front (u16_bytes a ++ (u16_bytes b ++ tail)) i 2 (omega arith)
      ∙ read_u16-append (u16_bytes a) (u16_bytes b ++ tail) 2 0 (omega (arith, length-u16_bytes a))
      ∙ read_u16-u16_bytes b tail b_fits
