-- ===== src/Rtcp/Nack/RoundTrip.antt =====
-- What `serialize` packs, `parse` expands to the same sequence numbers.
use cpp_meet.Common.{
  ℕ, zero, suc, ◌+◌, ◌-◌, ◌*◌, ◌/◌, ◌%◌, ◌^◌, ◌<◌, ◌≤◌, ◌≡◌, refl, ap, ◌∙◌, sym, true, List, [],
  ◌∷◌, ◌++◌, length, arith, All, length-append, append_assoc, append-nil,
}
use cpp_meet.Wire.{read_u16_first, read_u16_second, Bytes, u16_bytes, u32_bytes, read_u16, read_u32}
use cpp_meet.Rtcp.Nack.Sorting.{Above, StrictlySorted, unique-sort, All-of_member, lt_of_member}
use cpp_meet.Rtcp.Nack.Packet.{
  RtcpNack, NackPair, collect_blp, expand_pairs, pack_pairs, pair_bytes, skip_covered, ordered,
  nack_pairs, serialize, parse,
}
use cpp_meet.Rtcp.Nack.Covering.{
  covered, covered-append-skip, collect_blp-lt, expand_bits-collect_blp, skip_covered-Above,
  skip_covered-All, length-skip_covered, StrictlySorted-of_Above,
}

seam : (a b c d : Bytes) → a ++ (b ++ (c ++ d)) ≡ (a ++ (b ++ c)) ++ d
seam a b c d = simp append_assoc

length-pair :
    (front : Bytes) (x y : ℕ) → length (front ++ (u16_bytes x ++ u16_bytes y)) ≡ length front + 4
unfolding u16_bytes
length-pair front x y = length-append front (u16_bytes x ++ u16_bytes y)

-- A strictly ascending list of 16-bit numbers comes back from its packed pairs, which stand behind
-- `front` in the buffer.
expand_pairs-pack :
    (fuel : ℕ) (xs : List ℕ) (front rest : Bytes) (i : ℕ)
    → length xs ≤ fuel
    → StrictlySorted xs
    → All (λ x. x < 2 ^ 16) xs
    → i ≡ length front
    → expand_pairs
        (length (pack_pairs fuel xs))
        (front ++ (pair_bytes (pack_pairs fuel xs) ++ rest))
        i
      ≡ xs
unfolding expand_pairs pack_pairs pair_bytes
expand_pairs-pack zero [] front rest i hf s b h = refl
expand_pairs-pack zero (x ∷ xs) front rest i hf s b h = absurd (omega arith)
expand_pairs-pack (suc fuel) [] front rest i hf s b h = refl
expand_pairs-pack (suc fuel) (x ∷ xs) front rest i hf s b h =
    let blp = collect_blp x xs 0 in
    let later = skip_covered x xs in
    let more = pair_bytes (pack_pairs fuel later) in
    let small = collect_blp-lt x 0 xs (omega arith) in
    rw
      (
        append_assoc (u16_bytes x) (u16_bytes blp ++ more) rest,
        append_assoc (u16_bytes blp) more rest,
      )
      (rw
        (
          read_u16_first front (more ++ rest) x blp b.0 small i h,
          read_u16_second front (more ++ rest) x blp b.0 small (i + 2) (omega arith),
          expand_bits-collect_blp x xs s b.1,
        )
        (ap (λ (t : List ℕ). x ∷ t)
          (ap (λ (t : List ℕ). covered x xs ++ t)
              (rw (seam front (u16_bytes x) (u16_bytes blp) (more ++ rest)) (
                expand_pairs-pack fuel later (front ++ (u16_bytes x ++ u16_bytes blp)) rest (i + 4)
                  (omega (arith, length-skip_covered x xs))
                  (StrictlySorted-of_Above (x + 16) later (skip_covered-Above x x xs s))
                  (skip_covered-All x xs b.1) (omega (arith, length-pair front x blp))))
            ∙ covered-append-skip x xs)))

-- Pairs start more than 16 apart, so few of them fit the 16-bit numbers.
length-pack_pairs :
    (fuel lo : ℕ) (xs : List ℕ)
    → lo ≤ 2 ^ 16 + 16
    → Above lo xs
    → All (λ x. x < 2 ^ 16) xs
    → 17 * length (pack_pairs fuel xs) + lo ≤ 2 ^ 16 + 16
unfolding pack_pairs
length-pack_pairs zero lo xs hl a b = omega arith
length-pack_pairs (suc fuel) lo [] hl a b = omega arith
length-pack_pairs (suc fuel) lo (x ∷ xs) hl a b = omega (
  arith,
  length-pack_pairs fuel (x + 16) (skip_covered x xs) (omega arith) (skip_covered-Above x x xs a.1)
      (skip_covered-All x xs b.1),
)

pub length-nack_pairs :
    (xs : List ℕ)
    → StrictlySorted xs
    → All (λ x. x < 2 ^ 16) xs
    → length (pack_pairs (length xs) xs) ≤ 3857
length-nack_pairs [] s b = unfold pack_pairs in omega arith
length-nack_pairs (x ∷ xs) s b =
    unfold pack_pairs in
    omega (
      arith,
      length-pack_pairs (length xs) (x + 16) (skip_covered x xs) (omega arith)
          (skip_covered-Above x x xs s) (skip_covered-All x xs b.1),
    )

length-pair_bytes : (ps : List NackPair) → length (pair_bytes ps) ≡ 4 * length ps
unfolding pair_bytes u16_bytes
length-pair_bytes [] = refl
length-pair_bytes (p ∷ ps) = omega (arith, length-pair_bytes ps)

ordered-fits : (xs : List ℕ) → All (λ x. x < 2 ^ 16) xs → All (λ x. x < 2 ^ 16) (ordered xs)
ordered-fits xs b =
    All-of_member (2 ^ 16) (ordered xs)
      (λ k e. lt_of_member (2 ^ 16) k xs b (sym ((unique-sort xs).1 k) ∙ e))

-- The twelve bytes in front of the pairs.
front_of : RtcpNack → ℕ → Bytes
front_of n words =
    0x81 ∷ 205 ∷ (u16_bytes words ++ (u32_bytes n.sender_ssrc ++ u32_bytes n.media_ssrc))

rounds : (k : ℕ) → k ≤ 3857 → (((k + 2) / 256 % 256 * 256 + (k + 2) % 256 + 1) * 4 - 12) / 4 ≡ k
rounds k h = omega arith

parse-front :
    (q n : RtcpNack) (k : ℕ) (rest : Bytes)
    → n.sender_ssrc < 2 ^ 32
    → n.media_ssrc < 2 ^ 32
    → k ≤ 3857
    → 4 * k ≤ length rest
    → parse q (front_of n (k + 2) ++ rest)
      ≡ (true, record n { lost_seqs = expand_pairs k (front_of n (k + 2) ++ rest) 12 })
unfolding parse front_of u16_bytes u32_bytes read_u16 read_u32
parse-front q n k rest hs hm hk hl = ground (arith, rounds k hk)

words : (k : ℕ) → k ≤ 3857 → ((12 + k * 4) / 4 - 1) % 2 ^ 16 ≡ k + 2
words k h = omega arith

length-front_of : (n : RtcpNack) (k : ℕ) → 12 ≡ length (front_of n k)
unfolding front_of u16_bytes u32_bytes
length-front_of n k = refl

front_of-serialize :
    (n : RtcpNack)
    → length (nack_pairs n.lost_seqs) ≤ 3857
    → serialize n
      ≡ front_of n (length (nack_pairs n.lost_seqs) + 2)
        ++ (pair_bytes (nack_pairs n.lost_seqs) ++ [])
unfolding serialize front_of u32_bytes u16_bytes
front_of-serialize n h = rw (append-nil, words (length (nack_pairs n.lost_seqs)) h)

-- A NACK with 16-bit sequence numbers and 32-bit SSRCs is read back from its own bytes with the same
-- SSRCs and with its sequence numbers in ascending order, each once.
pub parse-serialize_request :
    (q n : RtcpNack)
    → n.sender_ssrc < 2 ^ 32
    → n.media_ssrc < 2 ^ 32
    → All (λ x. x < 2 ^ 16) n.lost_seqs
    → parse q (serialize n) ≡ (true, record n { lost_seqs = ordered n.lost_seqs })
unfolding nack_pairs
parse-serialize_request q n hs hm b =
    let seqs = ordered n.lost_seqs in
    let pairs = nack_pairs n.lost_seqs in
    let sorted = (unique-sort n.lost_seqs).0 in
    let fits = ordered-fits n.lost_seqs b in
    let few : length pairs ≤ 3857 = length-nack_pairs seqs sorted fits in
    rw (front_of-serialize n few) (
      parse-front q n (length pairs) (pair_bytes pairs ++ []) hs hm few
        (omega (arith, length-append (pair_bytes pairs) [], length-pair_bytes pairs))
      ∙ ap (λ (t : List ℕ). (true, record n { lost_seqs = t }))
          (expand_pairs-pack (length seqs) seqs (front_of n (length pairs + 2)) [] 12 (omega arith)
            sorted fits (length-front_of n (length pairs + 2))))
