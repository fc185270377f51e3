-- ===== src/Fec/Xor.antt =====
-- The exclusive or of payloads, as both classes of module08_weak_network/src/fec.cpp take it.
use cpp_meet.Common.{
  ℕ, zero, suc, ◌≡◌, refl, ap, sym, ◌∙◌, none, some, List, [], ◌∷◌, ◌++◌, bit_xor, arith, length,
}
use cpp_meet.Common.Bits.{bit_xor_comm, bit_xor_assoc, bit_xor-zero, bit_xor_self}
use cpp_meet.Wire.{Bytes, byte_at}
use cpp_meet.Rtp.Packet.{RtpPacket, payload}
use Prim.Native.Nat.{max}

-- `payload()` and `payload_size()`: no payload is no bytes.
unfoldable pub payload_bytes : RtpPacket → Bytes
payload_bytes p = elim (payload p) [ none ↦ [] | some d ↦ d ]

-- `resize` to the longer one with zeros, then `^=` byte by byte.
unfoldable pub xor_into : Bytes → Bytes → Bytes
xor_into [] ys = ys
xor_into (x ∷ xs) [] = x ∷ xs
xor_into (x ∷ xs) (y ∷ ys) = bit_xor x y ∷ xor_into xs ys

pub zero_xor : (b : ℕ) → bit_xor 0 b ≡ b
zero_xor b = bit_xor_comm 0 b ∙ bit_xor-zero b

-- Bytes past the end count as zero.
pub byte_at-xor_into :
    (xs ys : Bytes) (i : ℕ) → byte_at (xor_into xs ys) i ≡ bit_xor (byte_at xs i) (byte_at ys i)
unfolding xor_into
byte_at-xor_into [] ys i = sym (zero_xor (byte_at ys i))
byte_at-xor_into (x ∷ xs) [] i = sym (bit_xor-zero (byte_at (x ∷ xs) i))
byte_at-xor_into (x ∷ xs) (y ∷ ys) zero = refl
byte_at-xor_into (x ∷ xs) (y ∷ ys) (suc i) = byte_at-xor_into xs ys i

pub length-xor_into : (xs ys : Bytes) → length (xor_into xs ys) ≡ max (length xs) (length ys)
unfolding xor_into
length-xor_into [] ys = omega arith
length-xor_into (x ∷ xs) [] = omega arith
length-xor_into (x ∷ xs) (y ∷ ys) = omega (arith, length-xor_into xs ys)

-- The payloads of packets taken into a buffer one after another.
unfoldable pub xor_all : Bytes → List RtpPacket → Bytes
xor_all acc [] = acc
xor_all acc (p ∷ ps) = xor_all (xor_into acc (payload_bytes p)) ps

-- The exclusive or of byte `i` of the payloads.
unfoldable pub column : ℕ → List RtpPacket → ℕ
column i [] = 0
column i (p ∷ ps) = bit_xor (byte_at (payload_bytes p) i) (column i ps)

pub byte_at-xor_all :
    (acc : Bytes) (ps : List RtpPacket) (i : ℕ)
    → byte_at (xor_all acc ps) i ≡ bit_xor (byte_at acc i) (column i ps)
unfolding xor_all column
byte_at-xor_all acc [] i = sym (bit_xor-zero (byte_at acc i))
byte_at-xor_all acc (p ∷ ps) i =
    byte_at-xor_all (xor_into acc (payload_bytes p)) ps i
    ∙ ap (λ t. bit_xor t (column i ps)) (byte_at-xor_into acc (payload_bytes p) i)
    ∙ bit_xor_assoc (byte_at acc i) (byte_at (payload_bytes p) i) (column i ps)

pub column-append :
    (i : ℕ) (ps qs : List RtpPacket) → column i (ps ++ qs) ≡ bit_xor (column i ps) (column i qs)
unfolding column
column-append i [] qs = sym (zero_xor (column i qs))
column-append i (p ∷ ps) qs =
    ap (bit_xor (byte_at (payload_bytes p) i)) (column-append i ps qs)
    ∙ sym (bit_xor_assoc (byte_at (payload_bytes p) i) (column i ps) (column i qs))

-- The longest payload.
unfoldable pub longest : List RtpPacket → ℕ
longest [] = 0
longest (p ∷ ps) = max (length (payload_bytes p)) (longest ps)

pub length-xor_all :
    (acc : Bytes) (ps : List RtpPacket) → length (xor_all acc ps) ≡ max (length acc) (longest ps)
unfolding xor_all longest
length-xor_all acc [] = omega arith
length-xor_all acc (p ∷ ps) = omega (
  arith,
  length-xor_all (xor_into acc (payload_bytes p)) ps,
  length-xor_into acc (payload_bytes p),
)

pub longest-append : (ps qs : List RtpPacket) → longest (ps ++ qs) ≡ max (longest ps) (longest qs)
unfolding longest
longest-append [] qs = omega arith
longest-append (p ∷ ps) qs = omega (arith, longest-append ps qs)

-- What is left of three when two of them are taken out again.
pub cancel_outer : (a m b : ℕ) → bit_xor (bit_xor a (bit_xor m b)) (bit_xor a b) ≡ m
cancel_outer a m b =
    let flat = bit_xor_assoc a (bit_xor m b) (bit_xor a b) in
    let swap : bit_xor (bit_xor m b) (bit_xor a b) ≡ bit_xor (bit_xor m b) (bit_xor b a) =
      ap (bit_xor (bit_xor m b)) (bit_xor_comm a b) in
    let inner : bit_xor (bit_xor m b) (bit_xor b a) ≡ bit_xor m a =
      bit_xor_assoc m b (bit_xor b a)
      ∙ ap (bit_xor m)
          (sym (bit_xor_assoc b b a) ∙ ap (λ t. bit_xor t a) (bit_xor_self b) ∙ zero_xor a) in
    flat
    ∙ ap (bit_xor a) (swap ∙ inner ∙ bit_xor_comm m a)
    ∙ sym (bit_xor_assoc a a m)
    ∙ ap (λ t. bit_xor t m) (bit_xor_self a)
    ∙ zero_xor m
