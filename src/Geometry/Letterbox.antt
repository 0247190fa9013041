-- ===== src/Geometry/Letterbox.antt =====
-- The letterbox: the scale and the padding of a frame in the square input of the detector, and the
-- coordinates on both sides (core/geometry.py). Sizes are integers, which the code turns into floats.
use ibvap.Common.{ℕ, ◌||◌, ◌==◌, if◌then◌else◌}
use ibvap.Common.Float.{Float, plus, minus, times, over, num, smaller}

pub record LetterboxParams (F : Type 0) : Type 0 where
  pub scale : F
  pub pad_x : F
  pub pad_y : F
  pub src_w : ℕ
  pub src_h : ℕ
  pub model_size : ℕ

module _ {F : Type 0} ⦃f : Float F⦄ where
  unfoldable pub letterbox_params : ℕ → ℕ → ℕ → LetterboxParams F
  letterbox_params src_w src_h model_size =
      let size = num model_size 1 in
      let fitted = smaller (over size (num src_w 1)) (over size (num src_h 1)) in
      let scale = if (src_w == 0) || (src_h == 0) then num 1 1 else fitted in
      let new_w = times (num src_w 1) scale in
      let new_h = times (num src_h 1) scale in
      record {
        scale = scale;
        pad_x = over (minus size new_w) (num 2 1);
        pad_y = over (minus size new_h) (num 2 1);
        src_w = src_w;
        src_h = src_h;
        model_size = model_size;
      }

  unfoldable pub to_model_coords : F → F → LetterboxParams F → F × F
  to_model_coords x_norm y_norm p =
      let x_src = times x_norm (num p.src_w 1) in
      let y_src = times y_norm (num p.src_h 1) in
      (plus (times x_src p.scale) p.pad_x, plus (times y_src p.scale) p.pad_y)

  unfoldable pub to_source_norm : F → F → LetterboxParams F → F × F
  to_source_norm x_model y_model p =
      let x_src = over (minus x_model p.pad_x) p.scale in
      let y_src = over (minus y_model p.pad_y) p.scale in
      (
        if p.src_w == 0 then num 0 1 else over x_src (num p.src_w 1),
        if p.src_h == 0 then num 0 1 else over y_src (num p.src_h 1),
      )
