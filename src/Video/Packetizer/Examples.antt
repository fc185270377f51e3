-- ===== src/Video/Packetizer/Examples.antt =====
-- Runs of the packetizer, and its theorems at concrete NAL units.
use cpp_meet.Common.{◌+◌, ◌%◌, ◌^◌, ◌<◌, ◌≡◌, refl, true, false, [], ◌∷◌, arith, length, replicate}
use cpp_meet.Wire.{byte_at}
use cpp_meet.Video.Packetizer.{NalUnit, skip_start_code, packetize}
use cpp_meet.Video.Packetizer.Reassembly.{IsRun, fragments, packetize-fragments}

-- 1301 bytes behind a start code of four.
abbrev large : NalUnit
large = record { bytes = 0 ∷ 0 ∷ 0 ∷ 1 ∷ 0x65 ∷ replicate 1300 7; is_keyframe = true }

-- Two bytes behind a start code of three.
abbrev small : NalUnit
small = record { bytes = 0 ∷ 0 ∷ 1 ∷ 0x67 ∷ 0x42 ∷ []; is_keyframe = false }

skip_small : skip_start_code small.bytes ≡ 0x67 ∷ 0x42 ∷ []
unfolding skip_start_code
skip_small = refl

large-length : 1200 < length (skip_start_code large.bytes)
unfolding skip_start_code
large-length = omega arith

packetize-fragments_example :
    let r = packetize large 96 65535 3000 7 in
    IsRun (byte_at (skip_start_code large.bytes) 0) 96 3000 7 true 65535 r.0
    × (byte_at (skip_start_code large.bytes) 0 ∷ fragments r.0 ≡ skip_start_code large.bytes)
    × (r.1 ≡ (65535 + length r.0) % 2 ^ 16)
packetize-fragments_example =
    packetize-fragments large 96 65535 3000 7 (omega arith) (omega arith) (omega arith)
      (omega arith) large-length
