-- ===== src/Net/UdpSocket/Examples.antt =====
-- A witness: two sockets of which one is assigned to the other, and a constructor that fails.
use cpp_meet.Common.{
  ℕ, suc, ◌+◌, ◌<◌, ◌≡◌, refl, sym, ap, ◌∙◌, true, false, Option, none, some, List, [], ◌∷◌, arith,
  if_elim, ◌==◌,
}
use cpp_meet.Net.UdpSocket.{
  Call, opened, closed, Sockets, Operation, construct, construct_from, assign_from, destruct,
  perform, perform_all, new_socket, move_assign, move_construct, destroy,
}
use cpp_meet.Net.UdpSocket.Counting.{count}
use cpp_meet.Net.UdpSocket.Ownership.{IsFresh, IsOwned, held_by, perform_all-IsOwned}

abbrev total : List ℕ → ℕ
total [] = 0
total (fd ∷ fds) = fd + total fds

-- A descriptor above all that are open.
abbrev next_above : Option (List ℕ) → Option ℕ
next_above none = none
next_above (some held) = some (suc (total held))

abbrev socket : List Call → Option ℕ
socket log = next_above (held_by log)

count_above : (g : ℕ) (held : List ℕ) → total held < g → count g held ≡ 0
count_above g [] h = refl
count_above g (fd ∷ held) h =
    if_elim (λ t. t + count g held ≡ 0) (fd == g) 1 0
      (λ e. absurd (let p : fd ≡ g = ground arith in omega arith))
      (λ e. omega (arith, count_above g held (omega arith)))

socket-IsFresh : IsFresh socket
socket-IsFresh log held fd e f =
    let p : some (suc (total held)) ≡ some fd = ap next_above (sym e) ∙ f in
    let q : suc (total held) ≡ fd = cc in count_above fd held (omega arith)

abbrev operations : List Operation
operations =
    construct true true
    ∷ construct true false
    ∷ construct true true
    ∷ assign_from 0 1
    ∷ construct_from 0
    ∷ destruct 1
    ∷ destruct 0
    ∷ []

abbrev nothing : Sockets
nothing = record { objects = []; log = [] }

-- The first socket's descriptor is closed by the assignment, and the second one's is still open.
run_log :
    (perform_all socket operations nothing).log
    ≡ closed 1 ∷ opened 2 ∷ closed 2 ∷ opened 2 ∷ opened 1 ∷ []
unfolding perform_all perform new_socket move_assign move_construct destroy
run_log = refl

perform_all-IsOwned_example : IsOwned (perform_all socket operations nothing)
perform_all-IsOwned_example =
    perform_all-IsOwned socket socket-IsFresh operations nothing
      (record { held = []; open_now = refl; one_owner = λ g. refl; once = λ g. omega arith })
