-- ===== src/Types/Geometry/RoundTrip.antt =====
-- Points, boxes and paths read back.
use rust_kingbase.Prelude.{
  ◌==◌, if◌then◌else◌, Bytes, length, drop, All, drop-append, concat_map, ok, ℕ, suc, ◌+◌, ◌^◌, ◌<◌,
  ◌≡◌, refl, sym, ap, ap₂, ◌∙◌, Bool, true, false, not, List, [], ◌∷◌, ◌++◌, append-nil,
  append_assoc, arith,
}
use rust_kingbase.Prelude.Int.{wrap, pos}
use rust_kingbase.Wire.Crates.{Crates}
use rust_kingbase.Wire.Read.{read_uint-write_be, read_int-write_be}
use rust_kingbase.Wire.Write.{put_u8, put_i32, from_usize_fits, write_i32_at-append}
use rust_kingbase.Wire.Iterate.{collect, collect_done, collect_more}
use rust_kingbase.Types.Geometry.{
  point_to_sql, read_point, box_to_sql, put_points, point_from_sql, box_from_sql, path_to_sql,
  path_from_sql, points, points_next, Point, SqlPath,
}

-- The coordinates are bit patterns of an `f64`.
abbrev pub IsPoint : Point → Type 0
IsPoint p = (p.x < 2 ^ 64) × (p.y < 2 ^ 64)

module _ (crates : Crates) where
  open crates use {write_be}

  abbrev pub point_bytes : Point → Bytes
  point_bytes p = write_be 8 p.x ++ write_be 8 p.y

module _ (crates : Crates) where
  open crates use {write_be}

  pub read_point-point_bytes :
      (p : Point) (rest : Bytes)
      → IsPoint p
      → read_point crates (point_bytes crates p ++ rest) ≡ ok (p, rest)
  unfolding read_point
  read_point-point_bytes p rest (hx, hy) =
      rw (append_assoc (write_be 8 p.x) (write_be 8 p.y) rest) (
        rw (
          read_uint-write_be crates 8 p.x (write_be 8 p.y ++ rest) hx,
          read_uint-write_be crates 8 p.y rest hy,
        ))

  put_points-concat_map :
      (ps : List Point) (count : ℕ) (buf : Bytes)
      → put_points crates ps count buf
        ≡ (count + length ps, buf ++ concat_map (point_bytes crates) ps)
  unfolding put_points
  put_points-concat_map [] count buf = ap₂ (λ n b. (n, b)) (omega arith) (sym (append-nil buf))
  put_points-concat_map (p ∷ ps) count buf =
      put_points-concat_map ps (count + 1) _ ∙ ap₂ (λ n b. (n, b)) (omega arith) (simp append_assoc)

flag_read : (closed : Bool) → not ((if closed then 1 else 0) == 0) ≡ closed
flag_read true = refl
flag_read false = refl

module _ (crates : Crates) where
  open crates use {write_be}

  read_point_alone : (p : Point) → IsPoint p → read_point crates (point_bytes crates p) ≡ ok (p, [])
  read_point_alone p h =
      ap (read_point crates) (sym (append-nil (point_bytes crates p)))
      ∙ read_point-point_bytes crates p [] h

  -- A point and a box that are appended to any buffer are read back, with the corners in their order.
  pub corners_round_trip :
      (p q : Point) (buf : Bytes)
      → IsPoint p
      → IsPoint q
      → (point_from_sql crates (drop (length buf) (point_to_sql crates p.x p.y buf)) ≡ ok p)
        × (box_from_sql crates (drop (length buf) (box_to_sql crates p.x p.y q.x q.y buf))
            ≡ ok (record { upper_right = p; lower_left = q }))
  unfolding point_to_sql point_from_sql box_to_sql box_from_sql
  corners_round_trip p q buf hp hq =
      let point_whole : point_to_sql crates p.x p.y buf ≡ buf ++ point_bytes crates p =
        append_assoc buf _ _ in
      let box_whole : box_to_sql crates p.x p.y q.x q.y buf
          ≡ buf ++ (point_bytes crates p ++ point_bytes crates q) =
        simp append_assoc in
      (
        rw (point_whole, drop-append buf (point_bytes crates p), read_point_alone p hp),
        rw (
          box_whole,
          drop-append buf (point_bytes crates p ++ point_bytes crates q),
          read_point-point_bytes crates p (point_bytes crates q) hp,
          read_point_alone q hq,
        ),
      )

  points_read :
      (ps : List Point)
      → All IsPoint ps
      → collect
          (points_next crates)
          (suc (length ps))
          (record { remaining = pos (length ps); buf = concat_map (point_bytes crates) ps })
        ≡ ok ps
  unfolding points_next
  points_read [] h = collect_done _ 0 _ _ refl
  points_read (p ∷ ps) (h, hs) =
      collect_more _ _ _ _ p ps
        (rw (read_point-point_bytes crates p (concat_map (point_bytes crates) ps) h))
        (points_read ps hs)

  -- A path of less than 2^31 points is written and read back: `path_to_sql` appends bytes from which
  -- `path_from_sql` makes a path that is closed as it was, with an iterator that returns its points.
  pub path_round_trip :
      (closed : Bool) (ps : List Point) (buf : Bytes)
      → length ps < 2 ^ 31
      → All IsPoint ps
      → (out : Bytes) × (p : SqlPath) × (path_to_sql crates closed ps buf ≡ ok (buf ++ out))
        × (path_from_sql crates out ≡ ok p)
        × (p.closed ≡ closed)
        × (collect (points_next crates) (suc (length ps)) (points crates p) ≡ ok ps)
  unfolding path_to_sql path_from_sql
  path_round_trip closed ps buf few h =
      let none_before : 0 + length ps ≡ length ps = omega arith in
      let flag : ℕ = if closed then 1 else 0 in
      let body : Bytes = concat_map (point_bytes crates) ps in
      let count : Bytes = write_be 4 (wrap (2 ^ 31) (pos (length ps))) in
      (
        flag ∷ (count ++ body),
        record { closed = closed; points = pos (length ps); buf = body },
        rw
            (
              put_points-concat_map crates ps 0 (put_i32 crates (pos 0) (put_u8 flag buf)),
              none_before,
              from_usize_fits 2147483647 (length ps) (omega arith),
            )
            (write_i32_at-append crates (put_u8 flag buf) body (pos 0) (pos (length ps))
              ∙ ap ok (simp append_assoc)),
        rw (read_int-write_be crates 4 (2 ^ 31) (pos (length ps)) body refl (omega arith) few) (
            ap (λ b. ok (record { closed = b; points = pos (length ps); buf = body }))
              (flag_read closed)),
        refl,
        points_read ps h,
      )
