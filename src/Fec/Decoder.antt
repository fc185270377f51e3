-- ===== src/Fec/Decoder.antt =====
-- `XorFecDecoder` of module08_weak_network/src/fec.cpp and include/weak/fec.h. The groups are a
-- `std::map`, which the search for a group to recover goes over in the order of its keys.
pub mod Recovery
pub mod Filling
pub mod Session
use cpp_meet.Common.{
  ℕ, zero, suc, ◌+◌, ◌*◌, ◌-◌, ◌/◌, ◌%◌, ◌^◌, Bool, true, false, not, ◌&&◌, Option, none, some,
  List, [], ◌∷◌, ◌==◌, ltb, if◌then◌else◌, length, get_or, set, replicate,
}
use cpp_meet.Common.Keys.{Eq, nat_eq, lookup}
use cpp_meet.Wire.{Bytes}
use cpp_meet.Rtp.Packet.{RtpPacket, build, default, payload_type, sequence, ssrc, timestamp}
use cpp_meet.Fec.Xor.{payload_bytes, xor_into}

pub record Group : Type 0 where
  pub pkts : List (Option RtpPacket)
  pub fec : Option RtpPacket
  pub received : ℕ

pub record XorFecDecoder : Type 0 where
  pub group_size : ℕ
  pub groups : List (ℕ × Group)

unfoldable pub new_decoder : ℕ → XorFecDecoder
new_decoder group_size = record { group_size = group_size; groups = [] }

-- `groups_[base_seq]`: the group, a new one if there is none.
unfoldable pub group_at : ℕ → List (ℕ × Group) → Group
group_at k groups = elim (lookup k groups) [
  | none ↦ record { pkts = []; fec = none; received = 0 }
  | some g ↦ g
]

-- Where `groups_[base_seq]` stands in the order of the keys.
unfoldable pub put_group : ℕ → Group → List (ℕ × Group) → List (ℕ × Group)
put_group k g [] = (k, g) ∷ []
put_group k g ((j, h) ∷ rest) =
    let later = put_group k g rest in
    if j == k then (k, g) ∷ rest else if ltb k j then (k, g) ∷ (j, h) ∷ rest else (j, h) ∷ later

-- `if (g.pkts.empty()) g.pkts.resize(group_size_);`
unfoldable pub sized : ℕ → Group → Group
sized group_size g = record g {
  pkts = elim g.pkts [ [] ↦ replicate group_size none | p ∷ ps ↦ p ∷ ps ];
}

abbrev pub has_value : Option RtpPacket → Bool
has_value none = false
has_value (some p) = true

-- A data packet at its place in the group, if the place is free.
unfoldable pub put_packet : ℕ → RtpPacket → ℕ → Group → Group
put_packet group_size pkt idx g =
    if ltb idx group_size && not (has_value (get_or g.pkts idx none))
    then record g { pkts = set g.pkts idx (some pkt); received = g.received + 1 }
    else g

-- The first half of `feed`, by the group: the packet goes into its group.
unfoldable pub store_fec : XorFecDecoder → RtpPacket → ℕ → XorFecDecoder
store_fec d pkt base_seq =
    let g = sized d.group_size (group_at base_seq d.groups) in
    record d { groups = put_group base_seq (record g { fec = some pkt }) d.groups }

unfoldable pub store_data : XorFecDecoder → RtpPacket → ℕ → XorFecDecoder
store_data d pkt base_seq =
    let g = sized d.group_size (group_at base_seq d.groups) in
    record d {
      groups =
          put_group base_seq (put_packet d.group_size pkt (sequence pkt - base_seq) g) d.groups;
    }

-- An FEC packet names its group in its timestamp; a data packet's group is that of its number rounded
-- down to a multiple of the group size, which is not above the number.
unfoldable pub store : XorFecDecoder → RtpPacket → Bool → XorFecDecoder
store d pkt true = store_fec d pkt (timestamp pkt % 2 ^ 16)
store d pkt false = store_data d pkt (sequence pkt / d.group_size * d.group_size % 2 ^ 16)

-- `missing_cnt` and `missing_idx`, which is the last missing one.
unfoldable pub missing_cnt : List (Option RtpPacket) → ℕ
missing_cnt [] = 0
missing_cnt (none ∷ ps) = missing_cnt ps + 1
missing_cnt (some p ∷ ps) = missing_cnt ps

unfoldable pub missing_idx : ℕ → Option ℕ → List (Option RtpPacket) → Option ℕ
missing_idx i found [] = found
missing_idx i found (none ∷ ps) = missing_idx (i + 1) (some i) ps
missing_idx i found (some p ∷ ps) = missing_idx (i + 1) found ps

-- The loop of the recovery, which leaves out the one that is missing.
unfoldable pub xor_present : Bytes → List (Option RtpPacket) → Bytes
xor_present acc [] = acc
xor_present acc (none ∷ ps) = xor_present acc ps
xor_present acc (some p ∷ ps) = xor_present (xor_into acc (payload_bytes p)) ps

unfoldable pub first_present : List (Option RtpPacket) → Option RtpPacket
first_present [] = none
first_present (none ∷ ps) = first_present ps
first_present (some p ∷ ps) = some p

-- The packet that is made, with type, timestamp and SSRC of the first one there.
unfoldable pub rebuilt : ℕ → Bytes → Option RtpPacket → RtpPacket
rebuilt seq body none = build default 96 seq 0 0 (some body) (length body) false
rebuilt seq body (some p) =
    build default (payload_type p) seq (timestamp p) (ssrc p) (some body) (length body) false

-- The body of the search for one group, by its FEC packet and by the missing place.
unfoldable pub recover_at : ℕ → Group → RtpPacket → Option ℕ → Option RtpPacket
recover_at bs g fec none = none
recover_at bs g fec (some idx) =
    some (
      rebuilt ((bs + idx) % 2 ^ 16) (xor_present (payload_bytes fec) g.pkts) (first_present g.pkts))

unfoldable pub recover_with : ℕ → ℕ → Group → Option RtpPacket → Option RtpPacket
recover_with group_size bs g none = none
recover_with group_size bs g (some fec) =
    if not (length g.pkts == group_size)
    then none
    else if not (missing_cnt g.pkts == 1)
    then none
    else recover_at bs g fec (missing_idx 0 none g.pkts)

unfoldable pub recover : ℕ → ℕ → Group → Option RtpPacket
recover group_size bs g = recover_with group_size bs g g.fec

-- The search over the groups: the first that can be recovered is taken out.
unfoldable pub search_groups : ℕ → List (ℕ × Group) → Option RtpPacket × List (ℕ × Group)
search_groups group_size [] = (none, [])
search_groups group_size ((bs, g) ∷ rest) = elim (recover group_size bs g) [
  | none ↦ let (found, kept) = search_groups group_size rest in (found, (bs, g) ∷ kept)
  | some p ↦ (some p, rest)
]

-- `feed`
unfoldable pub decode : XorFecDecoder → RtpPacket → Bool → Option RtpPacket × XorFecDecoder
decode d pkt is_fec =
    let stored = store d pkt is_fec in
    let (found, kept) = search_groups stored.group_size stored.groups in
    (found, record stored { groups = kept })
