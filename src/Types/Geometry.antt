-- ===== src/Types/Geometry.antt =====
-- POINT, BOX and PATH of postgres-protocol/src/types/mod.rs. A coordinate is the bit pattern of its
-- `f64`.
pub mod RoundTrip
use rust_kingbase.Prelude.{
  ltb, ◌==◌, if◌then◌else◌, Bytes, length, ◌>>=◌, Result, message, ok, panic, ℕ, zero, suc, ◌+◌,
  ◌^◌, Bool, true, false, not, Option, none, some, List, [], ◌∷◌,
}
use rust_kingbase.Prelude.Int.{ℤ, pos, negsuc}
use rust_kingbase.Wire.Crates.{Crates}
use rust_kingbase.Wire.Read.{read_u8, read_i32, read_f64}
use rust_kingbase.Wire.Write.{put_u8, put_i32, put_f64, i32_from_usize, write_i32_at}
use rust_kingbase.Types.Scalar.{drained}

pub record Point : Type 0 where
  pub x : ℕ
  pub y : ℕ

pub record Box : Type 0 where
  pub upper_right : Point
  pub lower_left : Point

-- `points` is the count as it was sent, which `path_from_sql` does not look at.
pub record SqlPath : Type 0 where
  pub closed : Bool
  pub points : ℤ
  pub buf : Bytes

pub record PathPoints : Type 0 where
  pub remaining : ℤ
  pub buf : Bytes

-- `remaining -= 1` on `i32`, with the overflow check.
abbrev pub pred_i32 : ℤ → Result ℤ
pred_i32 (pos zero) = ok (negsuc 0)
pred_i32 (pos (suc n)) = ok (pos n)
pred_i32 (negsuc n) = if ltb (n + 1) (2 ^ 31) then ok (negsuc (n + 1)) else panic

abbrev pub is_zero : ℤ → Bool
is_zero (pos zero) = true
is_zero _ = false

module _ (crates : Crates) where
  unfoldable pub point_to_sql : ℕ → ℕ → Bytes → Bytes
  point_to_sql x y buf = put_f64 crates y (put_f64 crates x buf)

  -- The two coordinates of a point.
  unfoldable pub read_point : Bytes → Result (Point × Bytes)
  read_point buf = do
    (x, buf₁) ← read_f64 crates buf
    (y, buf₂) ← read_f64 crates buf₁
    ok (record { x = x; y = y }, buf₂)

  unfoldable pub box_to_sql : ℕ → ℕ → ℕ → ℕ → Bytes → Bytes
  box_to_sql x1 y1 x2 y2 buf =
      put_f64 crates y2 (put_f64 crates x2 (put_f64 crates y1 (put_f64 crates x1 buf)))

  -- The loop of `path_to_sql` over the points: the count, and the buffer.
  unfoldable pub put_points : List Point → ℕ → Bytes → ℕ × Bytes
  put_points [] count buf = (count, buf)
  put_points (p ∷ ps) count buf =
      put_points ps (count + 1) (put_f64 crates p.y (put_f64 crates p.x buf))

module _ (crates : Crates) where
  unfoldable pub point_from_sql : Bytes → Result Point
  point_from_sql buf = do (p, rest) ← read_point crates buf; drained "invalid buffer size" p rest

  unfoldable pub box_from_sql : Bytes → Result Box
  box_from_sql buf = do
    (upper_right, buf₁) ← read_point crates buf
    (lower_left, buf₂) ← read_point crates buf₁
    drained "invalid buffer size" (record { upper_right = upper_right; lower_left = lower_left })
        buf₂

  unfoldable pub path_to_sql : Bool → List Point → Bytes → Result Bytes
  path_to_sql closed points buf = do
    let buf₁ = put_u8 (if closed then 1 else 0) buf
    let points_idx = length buf₁
    let (count, buf₂) = put_points crates points 0 (put_i32 crates (pos 0) buf₁)
    num_points ← i32_from_usize count
    write_i32_at crates points_idx num_points buf₂

  unfoldable pub path_from_sql : Bytes → Result SqlPath
  path_from_sql buf = do
    (closed, buf₁) ← read_u8 buf
    (points, buf₂) ← read_i32 crates buf₁
    ok (record { closed = not (closed == 0); points = points; buf = buf₂ })

  -- `Path::points` and `PathPoints::next`
  abbrev pub points : SqlPath → PathPoints
  points p = record { remaining = p.points; buf = p.buf }

  unfoldable pub points_next : PathPoints → Result (Option Point × PathPoints)
  points_next it =
      if is_zero it.remaining
      then drained "invalid message length: path points not drained" (none, it) it.buf
      else (pred_i32 it.remaining >>= λ remaining. read_point crates it.buf >>= λ (p, rest).
          ok (some p, record { remaining = remaining; buf = rest }))
