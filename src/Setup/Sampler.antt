-- ===== src/Setup/Sampler.antt =====
-- traceSampler of server/telemetry/init.go: the share of the traces that are kept.
use identity_mservice.Base.{
  Bytes, codes, ◌==◌, if◌then◌else◌, Bool, false, Bool-cases, Option, none, some, [], ◌≡◌, inl, inr,
}
use identity_mservice.Base.Text.{trim_space}
use identity_mservice.Backend.{Backend}

-- float64 as far as the code uses it; `less a b` is a < b, and strconv.ParseFloat gives `none` for
-- an error.
pub record Floats : Type 1 where
  pub Float : Type 0
  pub zero : Float
  pub one : Float
  pub less : Float → Float → Bool
  pub parse_float : Bytes → Option Float

-- What IEEE 754 says of the two constants.
pub record FloatLaws (f : Floats) : Type 0 where
  pub zero_zero : f.less f.zero f.zero ≡ false
  pub one_zero : f.less f.one f.zero ≡ false
  pub one_one : f.less f.one f.one ≡ false

module _ (f : Floats) where
  abbrev parsed_or : f.Float → Option f.Float → f.Float
  parsed_or ratio none = ratio
  parsed_or ratio (some parsed) = parsed

  raw_ratio : Bytes → f.Float
  raw_ratio raw = if raw == [] then f.one else parsed_or f.one (f.parse_float raw)

  not_below : f.Float → f.Float
  not_below ratio = if f.less ratio f.zero then f.zero else ratio

  not_above : f.Float → f.Float
  not_above ratio = if f.less f.one ratio then f.one else ratio

  -- The argument of TraceIDRatioBased.
  unfoldable pub sampling_ratio : Backend → f.Float
  unfolding raw_ratio not_below not_above
  sampling_ratio b =
      not_above (not_below (raw_ratio (trim_space (b.getenv (codes "OTEL_TRACES_SAMPLER_ARG")))))

  clamp_bounds :
      FloatLaws f
      → (x : f.Float)
      → (f.less (not_above (not_below x)) f.zero ≡ false)
        × (f.less f.one (not_above (not_below x)) ≡ false)
  unfolding not_above not_below
  clamp_bounds laws x = elim (Bool-cases (f.less x f.zero)) [
    | inl below ↦ elim (Bool-cases (f.less f.one f.zero)) [
      | inl absurd_order ↦ cc (absurd_order, laws.one_zero)
      | inr order ↦ rw (below, order) (laws.zero_zero, order)
    ]
    | inr kept ↦ elim (Bool-cases (f.less f.one x)) [
      | inl above ↦ rw (kept, above) (laws.one_zero, laws.one_one)
      | inr within ↦ rw (kept, within) (kept, within)
    ]
  ]

  -- Where neither 0 nor 1 is below 0 and 1 is not above 1: whatever OTEL_TRACES_SAMPLER_ARG holds,
  -- the sampling ratio is not below 0 and 1 is not below it.
  pub sampling_ratio_bounds :
      FloatLaws f
      → (b : Backend)
      → (f.less (sampling_ratio b) f.zero ≡ false) × (f.less f.one (sampling_ratio b) ≡ false)
  unfolding sampling_ratio
  sampling_ratio_bounds laws b = clamp_bounds laws (raw_ratio _)
