-- ===== src/Base/Int.antt =====
-- The standard library's `i32` and `i64`, over the native numbers.
use xray_rs.Base.Tests.{ltb, ◌==◌, if◌then◌else◌}
use xray_rs.Base.Trim.{digits_of, parse_uint}
use Prim.Native.Nat.{ℕ, zero, suc, ◌-◌, ◌^◌}
use mathlib.Core.Option.{Option, none, some}
use mathlib.Core.List.{List, ◌∷◌}

pub data ℤ : Type 0 where
  pos negsuc : ℕ → ℤ

abbrev negated : Option ℕ → Option ℤ
negated none = none
negated (some zero) = some (pos zero)
negated (some (suc n)) = some (negsuc n)

abbrev positive : Option ℕ → Option ℤ
positive none = none
positive (some n) = some (pos n)

-- `str::parse` of an `i32`.
unfoldable pub parse_i32 : List ℕ → Option ℤ
parse_i32 (c ∷ d ∷ s) =
    if c == b'-'
    then negated (digits_of (2 ^ 31) (d ∷ s))
    else positive (parse_uint (2 ^ 31 - 1) (c ∷ d ∷ s))
parse_i32 s = positive (parse_uint (2 ^ 31 - 1) s)

-- `i64::try_from(…).unwrap_or(i64::MAX)`
abbrev pub i64_or_max : ℕ → ℕ
i64_or_max n = if ltb n (2 ^ 63) then n else 2 ^ 63 - 1
