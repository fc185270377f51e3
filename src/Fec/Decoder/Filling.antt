-- ===== src/Fec/Decoder/Filling.antt =====
-- How the data packets of one group fill its places, and what the FEC packet then gives.
use cpp_meet.Common.{
  ℕ, zero, suc, ◌+◌, ◌-◌, ◌*◌, ◌/◌, ◌%◌, ◌^◌, ◌<◌, ◌≤◌, ◌≡◌, refl, ap, ap₂, sym, ◌∙◌, Bool, true,
  false, Option, none, some, List, [], ◌∷◌, ◌++◌, ==_refl, arith, length, length-append,
  append_assoc, get_or, set, replicate, cons_some,
}
use mathlib.Core.Path.{subst}
use native.Mathlib.Nat.{mul-add-div_right, div-eq_of_lt}
use cpp_meet.Common.Keys.{nat_eq, lookup}
use cpp_meet.Rtp.Packet.{RtpPacket, sequence, timestamp}
use cpp_meet.Fec.Xor.{payload_bytes, xor_all}
use cpp_meet.Fec.Decoder.{
  Group, XorFecDecoder, decode, group_at, new_decoder, put_group, put_packet, recover, recover_with,
  search_groups, sized, store, store_data, store_fec,
}
use cpp_meet.Fec.Decoder.Recovery.{present, recover-hole, recovered, with_hole}

-- `feed` on one packet after another, each with its flag `is_fec`: the packets it returns, and the
-- decoder.
unfoldable pub decode_run : XorFecDecoder → List (RtpPacket × Bool) → List RtpPacket × XorFecDecoder
decode_run d [] = ([], d)
decode_run d ((p, is_fec) ∷ ps) =
    let (o, d') = decode d p is_fec in
    let (later, d'') = decode_run d' ps in (cons_some o later, d'')

abbrev pub data_packets : List RtpPacket → List (RtpPacket × Bool)
data_packets [] = []
data_packets (p ∷ ps) = (p, false) ∷ data_packets ps

-- Consecutive sequence numbers from `n` on.
abbrev pub Numbered : ℕ → List RtpPacket → Type 0
Numbered n [] = Unit
Numbered n (p ∷ ps) = (sequence p ≡ n) × Numbered (n + 1) ps

-- A decoder with one group, of which no FEC packet is there.
abbrev pub waiting : ℕ → ℕ → List (Option RtpPacket) → ℕ → XorFecDecoder
waiting group_size bs pkts received = record {
  group_size = group_size;
  groups = (bs, record { pkts = pkts; fec = none; received = received }) ∷ [];
}

sized-some :
    (n r : ℕ) (f : Option RtpPacket) (xs ys : List (Option RtpPacket)) (o : Option RtpPacket)
    → sized n (record { pkts = xs ++ (o ∷ ys); fec = f; received = r })
      ≡ record { pkts = xs ++ (o ∷ ys); fec = f; received = r }
unfolding sized
sized-some n r f [] ys o = refl
sized-some n r f (x ∷ xs) ys o = refl

get_or-middle :
    (xs ys : List (Option RtpPacket)) (o d : Option RtpPacket)
    → get_or (xs ++ (o ∷ ys)) (length xs) d ≡ o
get_or-middle [] ys o d = refl
get_or-middle (x ∷ xs) ys o d = get_or-middle xs ys o d

set-middle :
    (xs ys : List (Option RtpPacket)) (o v : Option RtpPacket)
    → set (xs ++ (o ∷ ys)) (length xs) v ≡ xs ++ (v ∷ ys)
set-middle [] ys o v = refl
set-middle (x ∷ xs) ys o v = ap (λ t. x ∷ t) (set-middle xs ys o v)

put_packet-middle :
    (gs r : ℕ) (p : RtpPacket) (xs ys : List (Option RtpPacket))
    → length xs < gs
    → put_packet gs p (length xs) (record { pkts = xs ++ (none ∷ ys); fec = none; received = r })
      ≡ record { pkts = xs ++ (some p ∷ ys); fec = none; received = r + 1 }
unfolding put_packet
put_packet-middle gs r p xs ys h =
    rw (get_or-middle xs ys none none, set-middle xs ys none (some p)) (ground arith)

group_start : (q gs j : ℕ) → j < gs → (q * gs + j) / gs ≡ q
group_start q gs j h =
    mul-add-div_right (omega arith) q j ∙ ap (λ t. q + t) (div-eq_of_lt h) ∙ omega arith

start_of :
    (q gs j s : ℕ) → j < gs → q * gs + gs ≤ 2 ^ 16 → s ≡ q * gs + j → s / gs * gs % 2 ^ 16 ≡ q * gs
start_of q gs j s h fits e =
    ap (λ t. t / gs * gs % 2 ^ 16) e
    ∙ ap (λ t. t * gs % 2 ^ 16) (group_start q gs j h)
    ∙ omega (arith, fits, h)

group_at_self : (b : ℕ) (g : Group) → group_at b ((b, g) ∷ []) ≡ g
unfolding group_at lookup
group_at_self b g = rw (group_at, ==_refl b) refl

put_group_self : (b : ℕ) (g h : Group) → put_group b g ((b, h) ∷ []) ≡ (b, g) ∷ []
unfolding put_group
put_group_self b g h = rw (==_refl b) refl

stored :
    (b gs r : ℕ) (p : RtpPacket) (xs ys : List (Option RtpPacket))
    → length xs < gs
    → sequence p ≡ b + length xs
    → store_data (waiting gs b (xs ++ (none ∷ ys)) r) p b
      ≡ waiting gs b (xs ++ (some p ∷ ys)) (r + 1)
unfolding store_data
stored b gs r p xs ys h e =
    let place : sequence p - b ≡ length xs = omega (arith, e) in
    let g : Group = record { pkts = xs ++ (none ∷ ys); fec = none; received = r } in
    let put =
      ap (λ t. put_packet gs p (sequence p - b) (sized gs t)) (group_at_self b g)
      ∙ ap₂ (λ t u. put_packet gs p t u) place (sized-some gs r none xs ys none)
      ∙ put_packet-middle gs r p xs ys h in
    ap (λ t. record { group_size = gs; groups = put_group b t ((b, g) ∷ []) }) put
    ∙ ap (λ t. record { group_size = gs; groups = t }) (put_group_self b _ g)

-- A data packet whose place is free goes to it, and nothing is returned.
decode-data :
    (q gs r : ℕ) (p : RtpPacket) (xs ys : List (Option RtpPacket))
    → length xs < gs
    → q * gs + gs ≤ 2 ^ 16
    → sequence p ≡ q * gs + length xs
    → decode (waiting gs (q * gs) (xs ++ (none ∷ ys)) r) p false
      ≡ (none, waiting gs (q * gs) (xs ++ (some p ∷ ys)) (r + 1))
unfolding decode store search_groups recover recover_with
decode-data q gs r p xs ys h fits e =
    rw (start_of q gs (length xs) (sequence p) h fits e, stored (q * gs) gs r p xs ys h e) refl

decode_run-quiet :
    (d d' : XorFecDecoder) (p : RtpPacket) (is_fec : Bool) (ps : List (RtpPacket × Bool))
    → decode d p is_fec ≡ (none, d')
    → decode_run d ((p, is_fec) ∷ ps) ≡ decode_run d' ps
unfolding decode_run
decode_run-quiet d d' p is_fec ps e = rw e refl

-- Packets with consecutive numbers fill the free places in front of them.
pub fill :
    (q gs r k : ℕ) (xs : List (Option RtpPacket)) (ps : List RtpPacket)
    (more : List (RtpPacket × Bool))
    → length xs + length ps ≤ gs
    → q * gs + gs ≤ 2 ^ 16
    → Numbered (q * gs + length xs) ps
    → decode_run
        (waiting gs (q * gs) (xs ++ replicate (length ps + k) none) r)
        (data_packets ps ++ more)
      ≡ decode_run
          (waiting gs (q * gs) (xs ++ (present ps ++ replicate k none)) (r + length ps))
          more
fill q gs r k xs [] more h fits n =
    ap₂ (λ j t. decode_run (waiting gs (q * gs) (xs ++ replicate j none) t) more) (omega arith)
      (omega arith)
fill q gs r k xs (p ∷ ps) more h fits n =
    let free : List (Option RtpPacket) = replicate (length ps + k) none in
    let one : List (Option RtpPacket) = some p ∷ [] in
    let longer : length (xs ++ one) ≡ length xs + 1 = length-append xs one in
    let places : suc (length ps) + k ≡ suc (length ps + k) = omega arith in
    ap
      (λ j.
        decode_run (waiting gs (q * gs) (xs ++ replicate j none) r)
          ((p, false) ∷ (data_packets ps ++ more)))
      places
    ∙ decode_run-quiet _ _ p false (data_packets ps ++ more)
        (decode-data q gs r p xs free (omega arith) fits n.0)
    ∙ ap (λ t. decode_run (waiting gs (q * gs) t (r + 1)) (data_packets ps ++ more))
        (sym (append_assoc xs one free))
    ∙ fill q gs (r + 1) k (xs ++ one) ps more (omega (arith, longer)) fits
        (subst (λ t. Numbered t ps) (omega (arith, longer)) n.1)
    ∙ ap₂ (λ t s. decode_run (waiting gs (q * gs) t s) more)
        (append_assoc xs one (present ps ++ replicate k none)) (omega arith)

decode-store :
    (d d' : XorFecDecoder) (p : RtpPacket) (is_fec : Bool)
    → store d p is_fec ≡ store d' p is_fec
    → decode d p is_fec ≡ decode d' p is_fec
unfolding decode
decode-store d d' p is_fec e =
    ap
      (λ t.
        let (found, kept) = search_groups t.group_size t.groups in
        (found, record t { groups = kept }))
      e

made :
    (n b : ℕ) (p : RtpPacket)
    → store_data (new_decoder (suc n)) p b
      ≡ store_data (waiting (suc n) b (replicate (suc n) none) 0) p b
unfolding store_data new_decoder put_group
made n b p =
    let g : Group = record { pkts = replicate (suc n) none; fec = none; received = 0 } in
    let put = put_packet (suc n) p (sequence p - b) g in
    let here : sized (suc n) (group_at b []) ≡ sized (suc n) g =
      unfold group_at lookup sized in refl in
    let full : sized (suc n) g ≡ g = unfold sized in refl in
    let found : sized (suc n) (group_at b ((b, g) ∷ [])) ≡ g =
      ap (sized (suc n)) (group_at_self b g) ∙ full in
    ap
      (λ t. record {
        group_size = suc n;
        groups = put_group b (put_packet (suc n) p (sequence p - b) t) [];
      })
      (here ∙ full)
    ∙ ap (λ t. record { group_size = suc n; groups = t }) (sym (put_group_self b put g))
    ∙ ap
        (λ t. record {
          group_size = suc n;
          groups = put_group b (put_packet (suc n) p (sequence p - b) t) ((b, g) ∷ []);
        })
        (sym found)

-- The first data packet of a group makes the group.
pub first_data :
    (q gs : ℕ) (p : RtpPacket) (j : ℕ)
    → j < gs
    → q * gs + gs ≤ 2 ^ 16
    → sequence p ≡ q * gs + j
    → decode (new_decoder gs) p false ≡ decode (waiting gs (q * gs) (replicate gs none) 0) p false
first_data q zero p j h fits e = absurd (omega arith)
first_data q (suc n) p j h fits e =
    let start = start_of q (suc n) j (sequence p) h fits e in
    decode-store (new_decoder (suc n)) (waiting (suc n) (q * suc n) (replicate (suc n) none) 0) p
      false (unfold store new_decoder in rw start (made n (q * suc n) p))

search_groups-one :
    (gs b : ℕ) (g : Group) (p : RtpPacket)
    → recover gs b g ≡ some p
    → search_groups gs ((b, g) ∷ []) ≡ (some p, [])
unfolding search_groups
search_groups-one gs b g p e = rw (search_groups, e) refl

-- The FEC packet of a group with one place free.
pub decode-fec :
    (b gs r : ℕ) (before after : List RtpPacket) (m f : RtpPacket)
    → length (before ++ (m ∷ after)) ≡ gs
    → payload_bytes f ≡ xor_all [] (before ++ (m ∷ after))
    → timestamp f % 2 ^ 16 ≡ b
    → decode (waiting gs b (with_hole before after) r) f true
      ≡ (some (recovered b before after m), record { group_size = gs; groups = [] })
unfolding decode store store_fec
decode-fec b gs r before after m f h e t =
    let g : Group = record { pkts = with_hole before after; fec = none; received = r } in
    let g' : Group = record { pkts = with_hole before after; fec = some f; received = r } in
    let put : put_group b (record (sized gs (group_at b ((b, g) ∷ []))) { fec = some f })
          ((b, g) ∷ [])
        ≡ (b, g') ∷ [] =
      ap (λ u. put_group b (record (sized gs u) { fec = some f }) ((b, g) ∷ [])) (group_at_self b g)
      ∙ ap (λ (u : Group). put_group b (record u { fec = some f }) ((b, g) ∷ []))
          (sized-some gs r none (present before) (present after) none)
      ∙ put_group_self b g' g in
    rw (t, put, search_groups-one gs b g' _ (recover-hole gs b r before after m f h e)) refl
