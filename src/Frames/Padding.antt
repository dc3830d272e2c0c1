-- ===== src/Frames/Padding.antt =====
-- The padding of a short frame.
use mathlib.Core.List.{append-nil, append_assoc}
use mini_corundum.Base.{
  ℕ, zero, suc, ◌+◌, ◌-◌, ◌≤◌, ◌≡◌, sym, refl, List, [], ◌∷◌, ◌++◌, length, length-append,
  replicate, ltb, arith, Bool-cases, inl, inr, ltb→lt, ltb→le,
}
use mini_corundum.Frames.Generate.{pad_frame}

-- With fuel for the bytes that are missing to 60, the padding ends by its own test: the frame is
-- filled up with zero bytes to 60 bytes, and a frame of 60 bytes or more is left alone.
pub pad_frame_lem :
    (fuel : ℕ) (frame : List ℕ)
    → 60 ≤ length frame + fuel
    → pad_frame fuel frame ≡ frame ++ replicate (60 - length frame) 0
unfolding pad_frame
pad_frame_lem zero frame h =
    let full : 60 - length frame ≡ 0 = omega arith in rw full (sym (append-nil frame))
pad_frame_lem (suc fuel) frame h = elim (Bool-cases (ltb (length frame) 60)) [
  | inl short ↦
      let less = ltb→lt (length frame) 60 short in
      let longer : length (frame ++ 0 ∷ []) ≡ length frame + 1 =
        omega (arith, length-append frame (0 ∷ [])) in
      let next : 60 - length frame ≡ suc (60 - (length frame + 1)) = omega arith in
      rw (short, pad_frame_lem fuel (frame ++ 0 ∷ []) (omega arith), longer, next, append_assoc)
        refl
  | inr full ↦
      let none_left : 60 - length frame ≡ 0 = omega (arith, ltb→le (length frame) 60 full) in
      rw (full, none_left) (sym (append-nil frame))
]
