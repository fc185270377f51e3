-- ===== src/Net/UdpSocket/Ownership.antt =====
-- Every descriptor has one owner, which closes it once.
use cpp_meet.Common.{
  ℕ, ◌+◌, ◌≤◌, ◌<◌, ◌≡◌, ◌≢◌, refl, ap, ◌∙◌, Bool, false, Option, none, some, List, [], ◌∷◌, ◌++◌,
  ◌==◌, ltb, if◌then◌else◌, if_elim, arith, get_or, length, set, ltb→lt, lt→ltb, ◌&&◌,
}
use cpp_meet.Net.UdpSocket.{
  Call, opened, closed, closing, Sockets, Operation, construct, construct_from, assign_from,
  destruct, destroy, move_assign, move_construct, new_socket, no_socket, perform, perform_all,
  put_new,
}
use cpp_meet.Net.UdpSocket.Counting.{
  is_fd, count, owners, without, count-without, owners-append, owners-clear, owners-assign,
}

abbrev release : ℕ → Option (List ℕ) → Option (List ℕ)
release fd none = none
release fd (some held) = if ltb 0 (count fd held) then some (without fd held) else none

abbrev hold : ℕ → Option (List ℕ) → Option (List ℕ)
hold fd none = none
hold fd (some held) = some (fd ∷ held)

-- The descriptors that are open behind the calls; `none` if one was closed that was not open.
abbrev pub held_by : List Call → Option (List ℕ)
held_by [] = some []
held_by (opened fd ∷ log) = hold fd (held_by log)
held_by (closed fd ∷ log) = release fd (held_by log)

-- No call closed what was not open, and what is open has just one owner.
pub record IsOwned (w : Sockets) : Type 0 where
  pub held : List ℕ
  pub open_now : held_by w.log ≡ some held
  pub one_owner : (g : ℕ) → count g held ≡ owners g w.objects
  pub once : (g : ℕ) → count g held ≤ 1

-- Closing what an owner has leaves the rest.
pub record IsLeft (log : List Call) (n : ℕ → ℕ) : Type 0 where
  pub rest : List ℕ
  pub open_rest : held_by log ≡ some rest
  pub count_rest : (g : ℕ) → count g rest ≡ n g

IsLeft-closing :
    (fd : Option ℕ) (log : List Call) (n : ℕ → ℕ) (held : List ℕ)
    → held_by log ≡ some held
    → ((g : ℕ) → count g held ≡ n g + is_fd g fd)
    → IsLeft (closing fd ++ log) n
IsLeft-closing none log n held e c = record {
  rest = held;
  open_rest = e;
  count_rest = λ g. omega (arith, c g);
}
IsLeft-closing (some fd) log n held e c =
    let here : is_fd fd (some fd) ≡ 1 = ground arith in
    let some_open : 0 < count fd held = omega (arith, c fd, here) in
    record {
      rest = without fd held;
      open_rest =
          ap (release fd) e
          ∙ ap (λ b. if b then some (without fd held) else none)
              (lt→ltb 0 (count fd held) some_open);
      count_rest = λ g. omega (arith, c g, count-without g fd held some_open);
    }

left-IsOwned :
    (w : Sockets)
    → IsLeft w.log (λ g. owners g w.objects)
    → ((g : ℕ) → owners g w.objects ≤ 1)
    → IsOwned w
left-IsOwned w l h = record {
  held = l.rest;
  open_now = l.open_rest;
  one_owner = l.count_rest;
  once = λ g. omega (arith, l.count_rest g, h g);
}

destruct-IsOwned :
    (socket : List Call → Option ℕ) (i : ℕ) (w : Sockets)
    → IsOwned w
    → IsOwned (perform socket (destruct i) w)
unfolding perform destroy
destruct-IsOwned socket i w h =
    let x = (get_or w.objects i no_socket).fd in
    let objects = set w.objects i no_socket in
    left-IsOwned (record { objects = objects; log = closing x ++ w.log })
      (IsLeft-closing x w.log (λ g. owners g objects) h.held h.open_now
        (λ g. omega (arith, h.one_owner g, owners-clear g w.objects i)))
      (λ g. omega (arith, h.one_owner g, h.once g, owners-clear g w.objects i))

construct_from-IsOwned :
    (socket : List Call → Option ℕ) (j : ℕ) (w : Sockets)
    → IsOwned w
    → IsOwned (perform socket (construct_from j) w)
unfolding perform move_construct
construct_from-IsOwned socket j w h =
    let x = get_or w.objects j no_socket in
    let objects = set w.objects j no_socket in
    record {
      held = h.held;
      open_now = h.open_now;
      one_owner = λ g.
          omega
            (arith, h.one_owner g, owners-clear g w.objects j, owners-append g objects (x ∷ []));
      once = h.once;
    }

assign_from-IsOwned :
    (socket : List Call → Option ℕ) (i j : ℕ) (w : Sockets)
    → IsOwned w
    → IsOwned (perform socket (assign_from i j) w)
unfolding perform move_assign
assign_from-IsOwned socket i j w h =
    let x = (get_or w.objects i no_socket).fd in
    let objects = set (set w.objects i (get_or w.objects j no_socket)) j no_socket in
    let v : Sockets = record { objects = objects; log = closing x ++ w.log } in
    if_elim IsOwned (i == j) w (if ltb i (length w.objects) then v else w) (λ e. h)
      (λ e.
        if_elim IsOwned (ltb i (length w.objects)) v w
          (λ f.
            let taken : (g : ℕ) → owners g objects + is_fd g x ≡ owners g w.objects =
              λ g. owners-assign g w.objects i j (other e) (ltb→lt i (length w.objects) f) in
            left-IsOwned v
              (IsLeft-closing x w.log (λ g. owners g objects) h.held h.open_now
                (λ g. omega (arith, h.one_owner g, taken g)))
              (λ g. omega (arith, h.one_owner g, h.once g, taken g)))
          (λ f. h))
  where
    other : (i == j) ≡ false → i ≢ j
    other e p = ground arith

-- A descriptor that was not open, behind a call that opened it.
open-IsOwned :
    (fd : ℕ) (w : Sockets) (h : IsOwned w)
    → count fd h.held ≡ 0
    → IsOwned
        (record { objects = w.objects ++ (record { fd = some fd } ∷ []); log = opened fd ∷ w.log })
open-IsOwned fd w h fresh = record {
  held = fd ∷ h.held;
  open_now = ap (hold fd) h.open_now;
  one_owner =
      λ g. omega (arith, h.one_owner g, owners-append g w.objects (record { fd = some fd } ∷ []));
  once = λ g. single g;
}
  where
    single : (g : ℕ) → is_fd g (some fd) + count g h.held ≤ 1
    single g =
        if_elim (λ t. t + count g h.held ≤ 1) (fd == g) 1 0
          (λ e. let p : fd ≡ g = ground arith in omega (arith, fresh, ap (λ k. count k h.held) p))
          (λ e. omega (arith, h.once g))

give_back-IsOwned :
    (fd : ℕ) (w : Sockets) (h : IsOwned w)
    → IsOwned (record w { log = closed fd ∷ opened fd ∷ w.log })
give_back-IsOwned fd w h =
    left-IsOwned (record w { log = closed fd ∷ opened fd ∷ w.log })
      (IsLeft-closing (some fd) (opened fd ∷ w.log) (λ g. owners g w.objects) (fd ∷ h.held)
        (ap (hold fd) h.open_now) (λ g. omega (arith, h.one_owner g)))
      (λ g. omega (arith, h.one_owner g, h.once g))

-- What the system says of `socket`: it gives no descriptor that is open.
abbrev pub IsFresh : (List Call → Option ℕ) → Type 0
IsFresh socket =
    (log : List Call) (held : List ℕ) (fd : ℕ)
    → held_by log ≡ some held
    → socket log ≡ some fd
    → count fd held ≡ 0

construct-IsOwned :
    (socket : List Call → Option ℕ)
    → IsFresh socket
    → (got_flags set_flags : Bool) (w : Sockets) → IsOwned w
    → IsOwned (perform socket (construct got_flags set_flags) w)
unfolding perform new_socket
construct-IsOwned socket fresh got_flags set_flags w h = given (socket w.log) refl
  where
    given :
        (o : Option ℕ) → socket w.log ≡ o → IsOwned (put_new (new_socket o got_flags set_flags) w)
    given none e = h
    given (some fd) e =
        if_elim (λ r. IsOwned (put_new r w)) (got_flags && set_flags)
          (some (record { fd = some fd }), opened fd ∷ []) (none, closed fd ∷ opened fd ∷ [])
          (λ b. open-IsOwned fd w h (fresh w.log h.held fd h.open_now e))
          (λ b. give_back-IsOwned fd w h)

perform-IsOwned :
    (socket : List Call → Option ℕ)
    → IsFresh socket
    → (op : Operation) (w : Sockets) → IsOwned w
    → IsOwned (perform socket op w)
perform-IsOwned socket fresh (construct got_flags set_flags) w h =
    construct-IsOwned socket fresh got_flags set_flags w h
perform-IsOwned socket fresh (construct_from j) w h = construct_from-IsOwned socket j w h
perform-IsOwned socket fresh (assign_from i j) w h = assign_from-IsOwned socket i j w h
perform-IsOwned socket fresh (destruct i) w h = destruct-IsOwned socket i w h

-- Where `socket` gives no descriptor that is open, every sequence of constructions, moves and destructions,
-- failed constructions too, keeps this: no descriptor was closed that was not open, and each one that is open
-- has one object that owns it.
pub perform_all-IsOwned :
    (socket : List Call → Option ℕ)
    → IsFresh socket
    → (ops : List Operation) (w : Sockets) → IsOwned w
    → IsOwned (perform_all socket ops w)
unfolding perform_all
perform_all-IsOwned socket fresh [] w h = h
perform_all-IsOwned socket fresh (op ∷ ops) w h =
    perform_all-IsOwned socket fresh ops (perform socket op w) (perform-IsOwned socket fresh op w h)
