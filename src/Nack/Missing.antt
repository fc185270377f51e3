-- ===== src/Nack/Missing.antt =====
-- What is missing, over every sequence of arrivals.
use cpp_meet.Common.{
  ℕ, zero, suc, ◌+◌, ◌%◌, ◌^◌, ◌<◌, ◌≤◌, ◌≡◌, refl, ap, sym, ◌∙◌, Bool, true, false, ◌||◌, none,
  some, List, [], ◌∷◌, ◌==◌, ==_iff, arith, if◌then◌else◌,
}
use cpp_meet.Common.Keys.{nat_eq, insert, lookup, lookup-insert, lookup-erase}
use cpp_meet.Rtp.Packet.{seq_gt}
use cpp_meet.Nack.{NackManager, advance, is_received, mark_gap, new_manager, on_receive}

-- No number is both received and missing.
abbrev pub IsApart : List ℕ → List (ℕ × ℕ) → Type 0
IsApart received missing = (k t : ℕ) → lookup k missing ≡ some t → is_received k received ≡ false

-- The same for every number but `x`.
abbrev ApartBut : ℕ → List ℕ → List (ℕ × ℕ) → Type 0
ApartBut x received missing =
    (k t : ℕ) → (k == x) ≡ false → lookup k missing ≡ some t → is_received k received ≡ false

mark_gap-ApartBut :
    (x fuel s seq : ℕ) (received : List ℕ) (clock : ℕ → ℕ) (missing : List (ℕ × ℕ))
    → ApartBut x received missing
    → ApartBut x received (mark_gap fuel s seq received clock missing)
unfolding mark_gap
mark_gap-ApartBut x zero s seq received clock missing h k t ne e = h k t ne e
mark_gap-ApartBut x (suc fuel) s seq received clock missing h k t ne e =
    let marked = if is_received s received then missing else insert s (clock s) missing in
    let apart : ApartBut x received marked =
      λ i u xi y. ground (arith, h i u xi, lookup-insert s i (clock s) missing, ==_iff s i) in
    ground (
      arith,
      h k t ne,
      mark_gap-ApartBut x fuel ((s + 1) % 2 ^ 16) seq received clock marked apart k t ne,
    )

-- A manager whose numbers are apart, and that has nothing missing before the first arrival.
pub record IsValid (m : NackManager) : Type 0 where
  pub apart : IsApart m.received m.missing
  pub idle : m.started ≡ false → m.missing ≡ []

nothing : (k : ℕ) → let empty : List (ℕ × ℕ) = [] in lookup k empty ≡ none
unfolding lookup
nothing k = refl

on_receive-IsValid :
    (m : NackManager) (clock : ℕ → ℕ) (seq : ℕ) → IsValid m → IsValid (on_receive m clock seq)
unfolding on_receive advance
on_receive-IsValid m clock seq v =
    let gap = (m.max_seen + 1) % 2 ^ 16 in
    let filled = mark_gap (2 ^ 16) gap seq (seq ∷ m.received) clock m.missing in
    let before : ApartBut seq (seq ∷ m.received) m.missing =
      λ k t ne e. unfold is_received in ground (arith, v.apart k t e) in
    let after : ApartBut seq (seq ∷ m.received) filled =
      mark_gap-ApartBut seq (2 ^ 16) gap seq (seq ∷ m.received) clock m.missing before in
    let none_yet : (k : ℕ) → m.started ≡ false → lookup k m.missing ≡ none =
      λ k h. ap (lookup k) (v.idle h) ∙ nothing k in
    record {
      apart = λ k t e. ground (
        arith,
        before k t,
        after k t,
        ==_iff k seq,
        ==_iff seq k,
        none_yet k,
        lookup-erase seq k m.missing,
        lookup-erase seq k filled,
      );
      idle = λ h. ground arith;
    }

-- Arrivals one after another.
unfoldable pub receive_all : NackManager → (ℕ → ℕ) → List ℕ → NackManager
receive_all m clock [] = m
receive_all m clock (seq ∷ seqs) = receive_all (on_receive m clock seq) clock seqs

all-IsValid :
    (m : NackManager) (clock : ℕ → ℕ) (seqs : List ℕ)
    → IsValid m
    → IsValid (receive_all m clock seqs)
unfolding receive_all
all-IsValid m clock [] v = v
all-IsValid m clock (seq ∷ seqs) v =
    all-IsValid (on_receive m clock seq) clock seqs (on_receive-IsValid m clock seq v)

new_manager-IsValid : IsValid new_manager
unfolding new_manager lookup
new_manager-IsValid = record { apart = λ k t e. cc; idle = λ h. refl }

-- After any sequence of arrivals at a new manager, whatever the clock says, no number is both received
-- and missing.
pub arrivals-IsApart :
    (clock : ℕ → ℕ) (seqs : List ℕ)
    → let m = receive_all new_manager clock seqs in IsApart m.received m.missing
arrivals-IsApart clock seqs = (all-IsValid new_manager clock seqs new_manager-IsValid).apart

abbrev pub is_missing : ℕ → List (ℕ × ℕ) → Bool
is_missing k missing = elim (lookup k missing) [ none ↦ false | some t ↦ true ]

is_missing-insert :
    (k s t : ℕ) (missing : List (ℕ × ℕ))
    → is_missing k (insert s t missing) ≡ (s == k || is_missing k missing)
is_missing-insert k s t missing = ground (arith, lookup-insert s k t missing)

-- What is marked stays marked.
mark_gap-keeps :
    (fuel s seq k : ℕ) (received : List ℕ) (clock : ℕ → ℕ) (missing : List (ℕ × ℕ))
    → is_missing k missing ≡ true
    → is_missing k (mark_gap fuel s seq received clock missing) ≡ true
unfolding mark_gap
mark_gap-keeps zero s seq k received clock missing h = h
mark_gap-keeps (suc fuel) s seq k received clock missing h =
    let marked = if is_received s received then missing else insert s (clock s) missing in
    let there : is_missing k marked ≡ true =
      ground (arith, is_missing-insert k s (clock s) missing) in
    ground (arith, mark_gap-keeps fuel ((s + 1) % 2 ^ 16) seq k received clock marked there)

-- The gap from `s` of `d` numbers is marked, where they are not received.
mark_gap-covers :
    (fuel s seq d j k : ℕ) (received : List ℕ) (clock : ℕ → ℕ) (missing : List (ℕ × ℕ))
    → d ≤ fuel
    → s < 2 ^ 16
    → d < 2 ^ 16
    → seq ≡ (s + d) % 2 ^ 16
    → j < d
    → k ≡ (s + j) % 2 ^ 16
    → is_received k received ≡ false
    → is_missing k (mark_gap fuel s seq received clock missing) ≡ true
unfolding mark_gap
mark_gap-covers zero s seq d j k received clock missing df sl dl e jd ek h = absurd (omega arith)
mark_gap-covers (suc fuel) s seq zero j k received clock missing df sl dl e jd ek h =
    absurd (omega arith)
mark_gap-covers (suc fuel) s seq (suc d) zero k received clock missing df sl dl e jd ek h =
    let marked = if is_received s received then missing else insert s (clock s) missing in
    let here : k ≡ s = omega (arith, ek, sl) in
    let fresh : is_received s received ≡ false = ap (λ t. is_received t received) (sym here) ∙ h in
    let there : is_missing k marked ≡ true =
      ground (arith, is_missing-insert k s (clock s) missing, ==_iff s k, fresh, here) in
    ground (arith, mark_gap-keeps fuel ((s + 1) % 2 ^ 16) seq k received clock marked there)
mark_gap-covers (suc fuel) s seq (suc d) (suc j) k received clock missing df sl dl e jd ek h =
    let marked = if is_received s received then missing else insert s (clock s) missing in
    let far : is_missing k (mark_gap fuel ((s + 1) % 2 ^ 16) seq received clock marked) ≡ true =
      mark_gap-covers fuel ((s + 1) % 2 ^ 16) seq d j k received clock marked (omega arith)
        (omega arith) (omega arith) (omega arith) (omega arith) (omega arith) h in
    ground (arith, far)

-- When a packet arrives at a started manager that is `d + 1` numbers ahead of the newest one, round the end if need be, and
-- less than 2 ^ 15, each of the `d` numbers between them that was not received is missing from then on.
pub on_receive-gap :
    (m : NackManager) (clock : ℕ → ℕ) (d j : ℕ)
    → m.started ≡ true
    → m.max_seen < 2 ^ 16
    → d + 1 < 2 ^ 15
    → j < d
    → is_received ((m.max_seen + 1 + j) % 2 ^ 16) m.received ≡ false
    → is_missing
        ((m.max_seen + 1 + j) % 2 ^ 16)
        (on_receive m clock ((m.max_seen + d + 1) % 2 ^ 16)).missing
      ≡ true
unfolding on_receive advance
on_receive-gap m clock d j started small near inside h =
    let seq = (m.max_seen + d + 1) % 2 ^ 16 in
    let k = (m.max_seen + 1 + j) % 2 ^ 16 in
    let first = (m.max_seen + 1) % 2 ^ 16 in
    let filled = mark_gap (2 ^ 16) first seq (seq ∷ m.received) clock m.missing in
    let apart : (k == seq) ≡ false = ground (arith, ==_iff k seq) in
    let unseen : is_received k (seq ∷ m.received) ≡ false =
      unfold is_received in ground (arith, apart, h) in
    let ahead : seq_gt seq m.max_seen ≡ true = unfold seq_gt in ground (arith, small, near) in
    let marked : is_missing k filled ≡ true =
      mark_gap-covers (2 ^ 16) first seq d j k (seq ∷ m.received) clock m.missing (omega arith)
        (omega arith) (omega arith) (omega arith) inside (omega arith) unseen in
    ground
      (arith, started, ahead, marked, apart, ==_iff seq k, ==_iff k seq, lookup-erase seq k filled)
