-- ===== src/Nack.antt =====
-- `NackManager` of module08_weak_network/src/nack_manager.cpp and include/weak/nack_manager.h. Time
-- points are nanoseconds; `clock` gives what `steady_clock::now()` returns when a number is marked.
pub mod Missing
mod Examples
use cpp_meet.Common.{
  ℕ, zero, suc, ◌+◌, ◌-◌, ◌/◌, ◌%◌, ◌^◌, Bool, true, false, ◌||◌, List, [], ◌∷◌, ◌==◌, leb,
  if◌then◌else◌,
}
use cpp_meet.Common.Keys.{Eq, nat_eq, insert, erase}
use cpp_meet.Rtp.Packet.{seq_gt}

pub record NackManager : Type 0 where
  pub received : List ℕ
  pub max_seen : ℕ
  pub started : Bool
  pub missing : List (ℕ × ℕ)

unfoldable pub new_manager : NackManager
new_manager = record { received = []; max_seen = 0; started = false; missing = [] }

-- `received_.find(s) != received_.end()`
unfoldable pub is_received : ℕ → List ℕ → Bool
is_received s [] = false
is_received s (r ∷ rs) = s == r || is_received s rs

-- The loop over the gap, from `s` up to `seq`; fewer than 2 ^ 16 rounds.
unfoldable pub mark_gap : ℕ → ℕ → ℕ → List ℕ → (ℕ → ℕ) → List (ℕ × ℕ) → List (ℕ × ℕ)
mark_gap zero s seq received clock missing = missing
mark_gap (suc fuel) s seq received clock missing =
    let marked = if is_received s received then missing else insert s (clock s) missing in
    let rest = mark_gap fuel ((s + 1) % 2 ^ 16) seq received clock marked in
    if s == seq then missing else rest

-- A packet that is newer than all so far moves `max_seen_` on and marks the gap before it.
unfoldable pub advance : NackManager → (ℕ → ℕ) → ℕ → NackManager
advance m clock seq =
    if seq_gt seq m.max_seen
    then record m {
      max_seen = seq;
      missing = mark_gap (2 ^ 16) ((m.max_seen + 1) % 2 ^ 16) seq m.received clock m.missing;
    }
    else m

unfoldable pub on_receive : NackManager → (ℕ → ℕ) → ℕ → NackManager
on_receive m clock seq =
    let n : NackManager = record m { received = seq ∷ m.received } in
    let a = advance n clock seq in
    if m.started
    then record a { missing = erase seq a.missing }
    else record n { max_seen = seq; started = true }

-- `get_nack_list`: the numbers that have been missing for 100 milliseconds.
unfoldable pub overdue : ℕ → List (ℕ × ℕ) → List ℕ
overdue now [] = []
overdue now ((seq, first_seen) ∷ rest) =
    let later = overdue now rest in
    if leb 100 ((now - first_seen) / 1000000) then seq ∷ later else later

unfoldable pub get_nack_list : NackManager → ℕ → List ℕ
get_nack_list m now = overdue now m.missing
