-- ===== src/Whiteboard/Examples.antt =====
-- Two boards at work.
use cpp_meet.Common.{◌+◌, ◌<◌, ◌^◌, ◌≡◌, refl, ap, [], ◌∷◌, arith}
use cpp_meet.Common.Keys.{bytes_eq, bytes_beq, lookup, insert}
use cpp_meet.Whiteboard.{
  CrdtWhiteboard, Stroke, is_visible, local_add, local_remove, lww_wins, merge, merge_added,
  merge_removed, new_board, remote_add, remote_remove, string_gt, update_clock, visible_among,
  visible_strokes, wins_over, write_add, write_remove,
}
use cpp_meet.Whiteboard.Merge.{IsBoard}
use cpp_meet.Whiteboard.Convergence.{Agree, OneWrite, merge_comm}
use cpp_meet.Whiteboard.Boards.{
  Reachable, start, adds, removes, hears_add, hears_remove, Reachable-IsBoard, merge_assoc,
}
use cpp_meet.Whiteboard.Clock.{IsClocked}

abbrev line : Stroke
line = record {
  uuid = 1 ∷ [];
  points = (record { x = 0; y = 0 }) ∷ [];
  color = 0xFF0000FF;
  width = 2;
}

abbrev dot : Stroke
dot = record { uuid = 2 ∷ []; points = []; color = 7; width = 1 }

-- Alice draws a line; Bob draws a dot and removes the line.
abbrev alice : CrdtWhiteboard
alice = local_add (new_board (65 ∷ [])) line

abbrev bob : CrdtWhiteboard
bob = local_remove (local_add (new_board (66 ∷ [])) dot) (1 ∷ [])

abbrev carol : CrdtWhiteboard
carol = remote_remove (remote_add (new_board (67 ∷ [])) line 1 (65 ∷ [])) (2 ∷ []) 1 (66 ∷ [])

alice-IsBoard : IsBoard alice
alice-IsBoard = Reachable-IsBoard alice (adds (new_board (65 ∷ [])) line (start (65 ∷ [])))

bob-Reachable : Reachable bob
bob-Reachable =
    removes (local_add (new_board (66 ∷ [])) dot) (1 ∷ [])
      (adds (new_board (66 ∷ [])) dot (start (66 ∷ [])))

carol-IsBoard : IsBoard carol
carol-IsBoard = Reachable-IsBoard carol (
    hears_remove (remote_add (new_board (67 ∷ [])) line 1 (65 ∷ [])) (2 ∷ []) 1 (66 ∷ [])
      (hears_add (new_board (67 ∷ [])) line 1 (65 ∷ []) (start (67 ∷ []))))

same_line : alice.added ≡ carol.added
unfolding local_add local_remove remote_add remote_remove new_board lww_wins string_gt write_add
    write_remove update_clock lookup insert bytes_beq
same_line = refl

alice-carol : OneWrite alice carol
alice-carol k e f x y t p = cc (ap (λ m. lookup k m) same_line)

alice-IsClocked : IsClocked alice
unfolding local_add local_remove remote_add remote_remove new_board lww_wins string_gt write_add
    write_remove update_clock lookup insert bytes_beq
alice-IsClocked = record { adds_before = λ k e x. ground arith; removes_before = λ k e x. cc }

merge_comm_example : Agree (merge alice carol) (merge carol alice)
merge_comm_example = merge_comm alice carol alice-IsBoard carol-IsBoard alice-carol

merge_assoc_example : Agree (merge (merge alice bob) carol) (merge alice (merge bob carol))
merge_assoc_example =
    merge_assoc alice bob carol (Reachable-IsBoard bob bob-Reachable) carol-IsBoard

clock : alice.lamport_ts + 1 < 2 ^ 64
unfolding local_add new_board
clock = omega arith

removed_line : visible_strokes (merge alice bob) ≡ dot ∷ []
unfolding visible_strokes visible_among merge merge_added merge_removed remote_add remote_remove
    local_add local_remove new_board is_visible wins_over lww_wins string_gt write_add write_remove
    update_clock lookup insert bytes_beq
removed_line = refl
