-- ===== src/Rtcp/Nack/Packet.antt =====
-- `RtcpNack` of rtcp_packet.cpp: the pairs that `serialize` packs and `parse` expands.
use Prim.Native.Nat.{bit_or}
use cpp_meet.Common.{
  ℕ, zero, suc, ◌+◌, ◌-◌, ◌*◌, ◌/◌, ◌%◌, ◌^◌, Bool, true, false, not, List, [], ◌∷◌, ◌++◌, ltb, leb,
  ◌==◌, if◌then◌else◌, length,
}
use cpp_meet.Wire.{Bytes, byte_at, u16_bytes, u32_bytes, read_u16, read_u32}
use cpp_meet.Rtcp.Nack.Sorting.{sort, unique}

pub record RtcpNack : Type 0 where
  pub sender_ssrc : ℕ
  pub media_ssrc : ℕ
  pub lost_seqs : List ℕ

-- `NackPair`
pub record NackPair : Type 0 where
  pub fsn : ℕ
  pub blp : ℕ

-- The inner loop over the numbers behind the first: each one within 16 sets its bit, and one
-- further away ends the loop.
unfoldable pub collect_blp : ℕ → List ℕ → ℕ → ℕ
collect_blp fsn [] blp = blp
collect_blp fsn (x ∷ xs) blp =
    let more = collect_blp fsn xs (if ltb fsn x then bit_or blp (2 ^ (x - fsn - 1)) else blp) in
    if leb x (fsn + 16) then more else blp

-- The loop that passes over the numbers which the pair covers.
unfoldable pub skip_covered : ℕ → List ℕ → List ℕ
skip_covered fsn [] = []
skip_covered fsn (x ∷ xs) =
    let rest = skip_covered fsn xs in if leb x (fsn + 16) then rest else x ∷ xs

-- The outer loop, with fuel for its rounds; each takes one number at least.
unfoldable pub pack_pairs : ℕ → List ℕ → List NackPair
pack_pairs zero xs = []
pack_pairs (suc fuel) [] = []
pack_pairs (suc fuel) (x ∷ xs) =
    record { fsn = x; blp = collect_blp x xs 0 } ∷ pack_pairs fuel (skip_covered x xs)

unfoldable pub pair_bytes : List NackPair → Bytes
pair_bytes [] = []
pair_bytes (p ∷ ps) = u16_bytes p.fsn ++ (u16_bytes p.blp ++ pair_bytes ps)

-- The sequence numbers as `serialize` orders them.
abbrev pub ordered : List ℕ → List ℕ
ordered xs = unique (sort xs)

unfoldable pub nack_pairs : List ℕ → List NackPair
nack_pairs xs = pack_pairs (length (ordered xs)) (ordered xs)

unfoldable pub serialize : RtcpNack → Bytes
serialize n =
    let pairs = nack_pairs n.lost_seqs in
    0x81
    ∷ 205
    ∷ (u16_bytes (((12 + length pairs * 4) / 4 - 1) % 2 ^ 16)
        ++ (u32_bytes n.sender_ssrc ++ (u32_bytes n.media_ssrc ++ pair_bytes pairs)))

-- `blp & (1 << i)`, as a test.
unfoldable pub bit_set : ℕ → ℕ → Bool
bit_set blp i = blp / 2 ^ i % 2 == 1

-- The loop over `i` from where it stands, with `n` rounds left.
unfoldable pub expand_bits : ℕ → ℕ → ℕ → ℕ → List ℕ
expand_bits fsn blp i zero = []
expand_bits fsn blp i (suc n) =
    let rest = expand_bits fsn blp (i + 1) n in
    if bit_set blp i then (fsn + i + 1) % 2 ^ 16 ∷ rest else rest

-- `while (offset + 4 <= expected)`, by the rounds that are left.
unfoldable pub expand_pairs : ℕ → Bytes → ℕ → List ℕ
expand_pairs zero d offset = []
expand_pairs (suc n) d offset =
    read_u16 d offset
    ∷ (expand_bits (read_u16 d offset) (read_u16 d (offset + 2)) 0 16
        ++ expand_pairs n d (offset + 4))

-- `expected`
abbrev pub announced : Bytes → ℕ
announced d = (read_u16 d 2 + 1) * 4

-- `parse`: the result, and the packet, which a refusal leaves as it was. From offset 12 the loop has
-- a round for each whole word up to `expected`.
unfoldable pub parse : RtcpNack → Bytes → Bool × RtcpNack
parse n d =
    if ltb (length d) 12
    then (false, n)
    else if not (byte_at d 0 / 2 ^ 6 % 4 == 2)
    then (false, n)
    else if not (byte_at d 0 % 32 == 1)
    then (false, n)
    else if not (byte_at d 1 == 205)
    then (false, n)
    else if ltb (length d) (announced d)
    then (false, n)
    else (
      true,
      record {
        sender_ssrc = read_u32 d 4;
        media_ssrc = read_u32 d 8;
        lost_seqs = expand_pairs ((announced d - 12) / 4) d 12;
      },
    )
