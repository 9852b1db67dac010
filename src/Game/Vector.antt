-- ===== src/Game/Vector.antt =====
-- GameServer/GameServer/FloatComparison.h and Vector2.h, over a float type that is a parameter.
use scalable_cross_platform.Prelude.{ℕ, Bool, true, not, ◌&&◌, ◌||◌, if◌then◌else◌}
use scalable_cross_platform.Prelude.Float.{Float}

module _ (fl : Float) where
  open fl use {F, lit, add, sub, mul, div, neg, lt, eq, abs, fmin, fmax, sqrt}

  -- `NearlyEqual`, with 128 * FLT_EPSILON and FLT_MIN and FLT_MAX as the arguments that they are.
  unfoldable pub nearly_equal : F → F → F → F → F → Bool
  nearly_equal epsilon abs_th flt_max a b =
      if eq a b
      then true
      else (let diff = abs (sub a b) in
          let norm = fmin (add (abs a) (abs b)) flt_max in lt diff (fmax abs_th (mul epsilon norm)))

  -- 2⁻¹⁶ is 128 * FLT_EPSILON; FLT_MIN is 2⁻¹²⁶ and FLT_MAX is 2¹²⁸ - 2¹⁰⁴.
  unfoldable pub equal : F → F → Bool
  unfolding nearly_equal
  equal =
      nearly_equal (div (lit 1 0) (fl.of_ℕ 65536)) (div (lit 1 0) (fl.of_ℕ flt_min_inverse))
        (fl.of_ℕ flt_max)
    where
      flt_min_inverse : ℕ
      flt_min_inverse = 85070591730234615865843651857942052864

      flt_max : ℕ
      flt_max = 340282346638528859811704183484516925440

  unfoldable pub different : F → F → Bool
  different value than = not (equal value than)

  unfoldable pub less_equal : F → F → Bool
  less_equal value than = equal value than || lt value than

  unfoldable pub greater_equal : F → F → Bool
  greater_equal value than = equal value than || lt than value

  unfoldable pub less : F → F → Bool
  less value than = not (greater_equal value than)

  unfoldable pub greater : F → F → Bool
  greater value than = not (less_equal value than)

  pub record Vector2 : Type 0 where
    pub x : F
    pub y : F

  unfoldable pub plus : Vector2 → Vector2 → Vector2
  plus u v = record { x = add u.x v.x; y = add u.y v.y }

  unfoldable pub minus : Vector2 → Vector2 → Vector2
  minus u v = record { x = sub u.x v.x; y = sub u.y v.y }

  unfoldable pub scale : Vector2 → F → Vector2
  scale v value = record { x = mul v.x value; y = mul v.y value }

  unfoldable pub shrink : Vector2 → F → Vector2
  shrink v value = record { x = div v.x value; y = div v.y value }

  unfoldable pub same_vector : Vector2 → Vector2 → Bool
  same_vector u v = equal u.x v.x && equal u.y v.y

  unfoldable pub magnitude : Vector2 → F
  magnitude v = sqrt (add (mul v.x v.x) (mul v.y v.y))

  unfoldable pub distance : Vector2 → Vector2 → F
  unfolding magnitude minus
  distance u v = magnitude (minus u v)
