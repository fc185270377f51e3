-- ===== src/Net/UdpSocket/Counting.antt =====
-- How often a descriptor stands among the open ones, and among the owners.
use cpp_meet.Common.{
  ℕ, zero, suc, ◌+◌, ◌<◌, ◌≡◌, ◌≢◌, ap, Option, none, some, List, [], ◌∷◌, ◌++◌, ◌==◌,
  if◌then◌else◌, arith, get_or, get_or-set_ne, length, set,
}
use cpp_meet.Net.UdpSocket.{UdpSocket, no_socket}

-- Whether it is this descriptor, as a number.
abbrev pub is_fd : ℕ → Option ℕ → ℕ
is_fd g none = 0
is_fd g (some fd) = if fd == g then 1 else 0

abbrev pub count : ℕ → List ℕ → ℕ
count g [] = 0
count g (fd ∷ fds) = is_fd g (some fd) + count g fds

abbrev pub owners : ℕ → List UdpSocket → ℕ
owners g [] = 0
owners g (s ∷ ss) = is_fd g s.fd + owners g ss

abbrev pub without : ℕ → List ℕ → List ℕ
without g [] = []
without g (fd ∷ fds) = if fd == g then fds else fd ∷ without g fds

pub count-without :
    (g fd : ℕ) (held : List ℕ)
    → 0 < count fd held
    → count g (without fd held) + is_fd g (some fd) ≡ count g held
count-without g fd [] h = absurd (omega arith)
count-without g fd (k ∷ held) h = ground (arith, count-without g fd held)

pub owners-append :
    (g : ℕ) (xs ys : List UdpSocket) → owners g (xs ++ ys) ≡ owners g xs + owners g ys
owners-append g [] ys = omega arith
owners-append g (x ∷ xs) ys = omega (arith, owners-append g xs ys)

pub owners-set :
    (g : ℕ) (xs : List UdpSocket) (i : ℕ) (s : UdpSocket)
    → i < length xs
    → owners g (set xs i s) + is_fd g (get_or xs i no_socket).fd ≡ owners g xs + is_fd g s.fd
owners-set g [] i s h = absurd (omega arith)
owners-set g (x ∷ xs) zero s h = omega arith
owners-set g (x ∷ xs) (suc i) s h = omega (arith, owners-set g xs i s (omega arith))

-- Taking the descriptor of an object away, also where the object is not there.
pub owners-clear :
    (g : ℕ) (xs : List UdpSocket) (i : ℕ)
    → owners g (set xs i no_socket) + is_fd g (get_or xs i no_socket).fd ≡ owners g xs
owners-clear g [] i = omega arith
owners-clear g (x ∷ xs) zero = omega arith
owners-clear g (x ∷ xs) (suc i) = omega (arith, owners-clear g xs i)

-- The descriptor of the object that is assigned to is taken away, the other one only moves.
pub owners-assign :
    (g : ℕ) (xs : List UdpSocket) (i j : ℕ)
    → i ≢ j
    → i < length xs
    → owners g (set (set xs i (get_or xs j no_socket)) j no_socket)
        + is_fd g (get_or xs i no_socket).fd
      ≡ owners g xs
owners-assign g xs i j n h =
    let moved = set xs i (get_or xs j no_socket) in
    omega (
      arith,
      owners-set g xs i (get_or xs j no_socket) h,
      owners-clear g moved j,
      ap (λ s. is_fd g s.fd) (get_or-set_ne xs i j (get_or xs j no_socket) no_socket n),
    )
