-- ===== src/Whiteboard/Order.antt =====
-- The order on stamps that decides which write wins.
use cpp_meet.Common.{ℕ, ◌<◌, ◌≡◌, refl, true, false, [], ◌∷◌, arith}
use cpp_meet.Wire.{Bytes}
use cpp_meet.Whiteboard.{lww_wins, string_gt}

string_gt_irrefl : (xs : Bytes) → string_gt xs xs ≡ false
unfolding string_gt
string_gt_irrefl [] = refl
string_gt_irrefl (x ∷ xs) = ground (arith, string_gt_irrefl xs)

string_gt_asymm : (xs ys : Bytes) → string_gt xs ys ≡ true → string_gt ys xs ≡ false
unfolding string_gt
string_gt_asymm [] ys h = cc
string_gt_asymm (x ∷ xs) [] h = refl
string_gt_asymm (x ∷ xs) (y ∷ ys) h = ground (arith, string_gt_asymm xs ys)

string_gt_total : (xs ys : Bytes) → string_gt xs ys ≡ false → string_gt ys xs ≡ false → xs ≡ ys
unfolding string_gt
string_gt_total [] [] h k = refl
string_gt_total [] (y ∷ ys) h k = cc
string_gt_total (x ∷ xs) [] h k = cc
string_gt_total (x ∷ xs) (y ∷ ys) h k = ground (arith, string_gt_total xs ys)

string_gt_trans :
    (xs ys zs : Bytes) → string_gt xs ys ≡ true → string_gt ys zs ≡ true → string_gt xs zs ≡ true
unfolding string_gt
string_gt_trans [] ys zs h k = cc
string_gt_trans (x ∷ xs) [] zs h k = cc
string_gt_trans (x ∷ xs) (y ∷ ys) [] h k = refl
string_gt_trans (x ∷ xs) (y ∷ ys) (z ∷ zs) h k = ground (arith, string_gt_trans xs ys zs)

module _ (s : ℕ) (p : Bytes) where
  -- A write never wins over itself.
  pub lww_irrefl : lww_wins s p s p ≡ false
  unfolding lww_wins
  lww_irrefl = ground (arith, string_gt_irrefl p)

  module _ (t : ℕ) (q : Bytes) where
    -- Of two writes at most one wins over the other.
    pub lww_asymm : lww_wins s p t q ≡ true → lww_wins t q s p ≡ false
    unfolding lww_wins
    lww_asymm h = ground (arith, string_gt_asymm p q)

    -- Two writes of which neither wins have the same timestamp and peer.
    pub lww_total : lww_wins s p t q ≡ false → lww_wins t q s p ≡ false → (s ≡ t) × (p ≡ q)
    unfolding lww_wins
    lww_total h k = ground (arith, string_gt_total p q)

    pub lww_trans :
        (u : ℕ) (r : Bytes)
        → lww_wins s p t q ≡ true
        → lww_wins t q u r ≡ true
        → lww_wins s p u r ≡ true
    unfolding lww_wins
    lww_trans u r h k = ground (arith, string_gt_trans p q r)

    -- A later timestamp wins whoever wrote.
    pub lww_later : t < s → lww_wins s p t q ≡ true
    unfolding lww_wins
    lww_later h = ground arith
