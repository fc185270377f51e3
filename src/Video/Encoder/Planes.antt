-- ===== src/Video/Encoder/Planes.antt =====
-- What of a frame goes to the encoder.
use cpp_meet.Common.{
  ℕ, zero, suc, ◌+◌, ◌*◌, ◌≡◌, refl, sym, ap, ◌∙◌, [], ◌∷◌, ◌++◌, arith, take, drop, drop-drop,
}
use cpp_meet.Wire.{Bytes}
use cpp_meet.Video.Encoder.{H264Encoder, YuvFrame, picture_of, uv_size, y_size}

-- A front and what is behind it, the length of both given.
take_add : (m n k : ℕ) (xs : Bytes) → k ≡ m + n → take m xs ++ take n (drop m xs) ≡ take k xs
take_add zero n k xs h = let e : n ≡ k = omega arith in ap (λ t. take t xs) e
take_add (suc m) n zero xs h = absurd (omega arith)
take_add (suc m) zero (suc k) [] h = refl
take_add (suc m) (suc n) (suc k) [] h = refl
take_add (suc m) n (suc k) (x ∷ xs) h = ap (λ t. x ∷ t) (take_add m n k xs (omega arith))

-- The planes one behind the other are the front of the frame's bytes.
pub planes-picture_of :
    {E : Type 0} (h : H264Encoder E) (frame : YuvFrame)
    → (picture_of h frame).plane_y ++ ((picture_of h frame).plane_u ++ (picture_of h frame).plane_v)
      ≡ take (y_size h + 2 * uv_size h) frame.yuv
unfolding picture_of
planes-picture_of h frame =
    let y = y_size h in
    let uv = uv_size h in
    let behind = drop y frame.yuv in
    ap (λ v. take y frame.yuv ++ (take uv behind ++ take uv v))
      (sym (drop-drop uv y (y + uv) frame.yuv (omega arith)))
    ∙ ap (λ t. take y frame.yuv ++ t) (take_add uv uv (2 * uv) behind (omega arith))
    ∙ take_add y (2 * uv) (y + 2 * uv) frame.yuv refl
