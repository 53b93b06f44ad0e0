-- ===== src/Protocol/Quantise.antt =====
-- robstride_driver/src/protocol.cpp: `encode_u16` on finite ranges.
use robstride_ros.Prelude.{◌≤◌, true, ◌≡◌, arith}
use robstride_ros.Prelude.Int.{pos, ◌≤ℤ◌, to_u16, to_u16_mono, to_u16-le}
use robstride_ros.Double.{Double, nought, one, ◌≼◌, IsFinite, clamp}
use robstride_ros.Double.Laws.{
  IsIeee, clamp_bounds, clamp-IsFinite, le_of_lt, clamp_lo, clamp_hi, clamp_mono,
}
use robstride_ros.Protocol.{encode_u16}

module _ {W : Type 0} ⦃d : Double W⦄ (laws : IsIeee W) (lo hi : W) (flo : IsFinite lo)
    (fhi : IsFinite hi) (ordered : d.lt lo hi ≡ true) (span : IsFinite (d.minus hi lo)) where
  open d use {of_ℕ, minus, over, times, lround}

  -- The number that is rounded.
  abbrev scaled : W → W
  scaled v = times (over (minus (clamp v lo hi) lo) (minus hi lo)) (of_ℕ 65535)

  encode_at : (v : W) → IsFinite v → encode_u16 v lo hi ≡ to_u16 (lround (scaled v))
  unfolding encode_u16
  encode_at v fv = ground arith

  -- The four steps of the computation keep the order and stay finite.
  abbrev shifted : W → W
  shifted v = minus (clamp v lo hi) lo

  abbrev normalized : W → W
  normalized v = over (shifted v) (minus hi lo)

  span_pos : d.lt nought (minus hi lo) ≡ true
  span_pos = laws.minus_pos lo hi flo fhi ordered

  lo≼hi : lo ≼ hi
  lo≼hi = le_of_lt laws lo hi flo fhi ordered

  nought-IsFinite : IsFinite {W = W} nought
  nought-IsFinite = laws.finite_of_ℕ 0 (omega arith)

  one-IsFinite : IsFinite {W = W} one
  one-IsFinite = laws.finite_of_ℕ 1 (omega arith)

  shifted-IsFinite : (v : W) → IsFinite v → IsFinite (shifted v)
  shifted-IsFinite v fv =
      let (low, high) = clamp_bounds laws v lo hi fv flo fhi lo≼hi in
      let fc = clamp-IsFinite laws v lo hi fv flo fhi in
      let above = laws.minus_mono lo (clamp v lo hi) lo flo fc flo low in
      laws.finite_between nought (shifted v) (minus hi lo) nought-IsFinite span
        (rw (laws.minus_self lo flo) at above)
        (laws.minus_mono (clamp v lo hi) hi lo fc fhi flo high)

  shifted_bounds : (v : W) → IsFinite v → (nought ≼ shifted v) × (shifted v ≼ minus hi lo)
  shifted_bounds v fv =
      let (low, high) = clamp_bounds laws v lo hi fv flo fhi lo≼hi in
      let fc = clamp-IsFinite laws v lo hi fv flo fhi in
      let above = laws.minus_mono lo (clamp v lo hi) lo flo fc flo low in
      (rw (laws.minus_self lo flo) at above, laws.minus_mono (clamp v lo hi) hi lo fc fhi flo high)

  normalized_bounds : (v : W) → IsFinite v → (nought ≼ normalized v) × (normalized v ≼ one)
  normalized_bounds v fv =
      let (low, high) = shifted_bounds v fv in
      let fs = shifted-IsFinite v fv in
      let above =
        laws.over_mono nought (shifted v) (minus hi lo) nought-IsFinite fs span span_pos low in
      let below =
        laws.over_mono (shifted v) (minus hi lo) (minus hi lo) fs span span span_pos high in
      (
        rw (laws.nought_over (minus hi lo) span span_pos) at above,
        rw (laws.over_self (minus hi lo) span span_pos) at below,
      )

  normalized-IsFinite : (v : W) → IsFinite v → IsFinite (normalized v)
  normalized-IsFinite v fv =
      let (low, high) = normalized_bounds v fv in
      laws.finite_between nought (normalized v) one nought-IsFinite one-IsFinite low high

  scaled_bounds : (v : W) → IsFinite v → (nought ≼ scaled v) × (scaled v ≼ of_ℕ 65535)
  scaled_bounds v fv =
      let (low, high) = normalized_bounds v fv in
      let fn = normalized-IsFinite v fv in
      let above =
        laws.times_mono 65535 nought (normalized v) (omega arith) nought-IsFinite fn low in
      let below = laws.times_mono 65535 (normalized v) one (omega arith) fn one-IsFinite high in
      (
        rw (laws.nought_times 65535 (omega arith)) at above,
        rw (laws.one_times 65535 (omega arith)) at below,
      )

  scaled-IsFinite : (v : W) → IsFinite v → IsFinite (scaled v)
  scaled-IsFinite v fv =
      let (low, high) = scaled_bounds v fv in
      laws.finite_between nought (scaled v) (of_ℕ 65535) nought-IsFinite
        (laws.finite_of_ℕ 65535 (omega arith)) low high

  scaled_mono : (x y : W) → IsFinite x → IsFinite y → x ≼ y → scaled x ≼ scaled y
  scaled_mono x y fx fy h =
      laws.times_mono 65535 (normalized x) (normalized y) (omega arith) (normalized-IsFinite x fx)
        (normalized-IsFinite y fy)
        (laws.over_mono (shifted x) (shifted y) (minus hi lo) (shifted-IsFinite x fx)
          (shifted-IsFinite y fy) span span_pos
          (laws.minus_mono (clamp x lo hi) (clamp y lo hi) lo
            (clamp-IsFinite laws x lo hi fx flo fhi) (clamp-IsFinite laws y lo hi fy flo fhi) flo
            (clamp_mono laws x y lo hi fx fy flo fhi lo≼hi h)))

  -- The rounded number needs no wrap.
  lround_bounds :
      (v : W) → IsFinite v → (pos 0 ≤ℤ lround (scaled v)) × (lround (scaled v) ≤ℤ pos 65535)
  lround_bounds v fv =
      let (low, high) = scaled_bounds v fv in
      let fs = scaled-IsFinite v fv in
      let above = laws.lround_mono nought (scaled v) nought-IsFinite fs low in
      let below =
        laws.lround_mono (scaled v) (of_ℕ 65535) fs (laws.finite_of_ℕ 65535 (omega arith)) high in
      (
        rw (laws.lround_of_ℕ 0 (omega arith)) at above,
        rw (laws.lround_of_ℕ 65535 (omega arith)) at below,
      )

  -- On an ordered finite range of finite width, `encode_u16` keeps the order of finite values.
  pub encode_u16_mono :
      (x y : W) → IsFinite x → IsFinite y → x ≼ y → encode_u16 x lo hi ≤ encode_u16 y lo hi
  encode_u16_mono x y fx fy h =
      rw (encode_at x fx, encode_at y fy)
        (to_u16_mono _ _ (lround_bounds x fx).0
          (laws.lround_mono (scaled x) (scaled y) (scaled-IsFinite x fx) (scaled-IsFinite y fy)
            (scaled_mono x y fx fy h))
          (lround_bounds y fy).1)

  scaled_lo : times (over (minus (clamp lo lo hi) lo) (minus hi lo)) (of_ℕ 65535) ≡ nought
  scaled_lo = rw (
    clamp_lo laws lo hi flo fhi lo≼hi,
    laws.minus_self lo flo,
    laws.nought_over (minus hi lo) span span_pos,
    laws.nought_times 65535 (omega arith),
  )

  scaled_hi : times (over (minus (clamp hi lo hi) lo) (minus hi lo)) (of_ℕ 65535) ≡ of_ℕ 65535
  scaled_hi = rw (
    clamp_hi laws lo hi flo fhi lo≼hi,
    laws.over_self (minus hi lo) span span_pos,
    laws.one_times 65535 (omega arith),
  )

  encode_min : encode_u16 lo lo hi ≡ 0
  unfolding to_u16
  encode_min = rw (encode_at lo flo, scaled_lo, laws.lround_of_ℕ 0 (omega arith))

  encode_max : encode_u16 hi lo hi ≡ 65535
  unfolding to_u16
  encode_max = rw (encode_at hi fhi, scaled_hi, laws.lround_of_ℕ 65535 (omega arith))

  -- On an ordered finite range of finite width, every finite value at or below the minimum is encoded
  -- as 0 and every finite value at or above the maximum as 65535.
  pub encode_u16_saturates :
      (v : W)
      → IsFinite v
      → (v ≼ lo → encode_u16 v lo hi ≡ 0) × (hi ≼ v → encode_u16 v lo hi ≡ 65535)
  encode_u16_saturates v fv = (
    λ h. omega (arith, encode_u16_mono v lo fv flo h, encode_min),
    λ h. omega (arith, encode_u16_mono hi v fhi fv h, encode_max, encode_lt v fv),
  )
    where
      encode_lt : (v : W) → IsFinite v → encode_u16 v lo hi ≤ 65535
      encode_lt v fv = rw (encode_at v fv) (to_u16-le (lround (scaled v)))
