-- ===== src/Connector/Mysql/Units.antt =====
-- internal/connector/mysql.go: the unit that `formatBytes` chooses.
use native.Mathlib.Nat.{mul-le-mul_right}
use database_flashback.Base.{
  ℕ, zero, suc, ◌+◌, ◌*◌, ◌/◌, ◌^◌, ◌≤◌, ◌<◌, ◌≡◌, refl, some, leb, arith, Bool-cases, inl, inr,
}
use database_flashback.Connector.Mysql.{unit_loop, byte_unit}

bound : ℕ → ℕ
bound zero = 1024
bound (suc k) = 1024 * bound k

scale_low : (n div b : ℕ) → n * div ≤ b → n / 1024 * (div * 1024) ≤ b
scale_low n div b h =
    let m : n / 1024 * 1024 * div ≤ n * div = mul-le-mul_right div (omega arith) in grind (arith, m)

scale_high : (n div b : ℕ) → b < n * div + div → b < n / 1024 * (div * 1024) + div * 1024
scale_high n div b h =
    let m : (n + 1) * div ≤ (n / 1024 * 1024 + 1024) * div = mul-le-mul_right div (omega arith) in
    grind (arith, m)

last_low : (n div b : ℕ) → 0 < n → n * div ≤ b → div ≤ b
last_low n div b p h =
    let m : 1 * div ≤ n * div = mul-le-mul_right div (omega arith) in grind (arith, m)

last_high : (n div b : ℕ) → n < 1024 → b < n * div + div → b < div * 1024
last_high n div b p h =
    let m : (n + 1) * div ≤ 1024 * div = mul-le-mul_right div (omega arith) in grind (arith, m)

-- With `k` divisions left at most, the loop ends; it keeps the unit times 1024 above the size.
unit_loop-ends :
    (k fuel b n div exp : ℕ)
    → n < bound k
    → k < fuel
    → 0 < n
    → n * div ≤ b
    → b < n * div + div
    → (d e : ℕ) × (unit_loop fuel n div exp ≡ some (d, e))
      × (e ≤ exp + k)
      × (d ≤ b)
      × (b < d * 1024)
unfolding unit_loop bound
unit_loop-ends k zero b n div exp small enough p low high = absurd (omega arith)
unit_loop-ends zero (suc fuel) b n div exp small enough p low high =
    (div, exp, ground arith, omega arith, last_low n div b p low, last_high n div b small high)
unit_loop-ends (suc k) (suc fuel) b n div exp small enough p low high =
    elim (Bool-cases (leb 1024 n)) [
      | inl large ↦
          let big : 1024 ≤ n = ground (arith, large) in
          let (d, e, runs, few, lo, hi) =
            unit_loop-ends k fuel b (n / 1024) (div * 1024) (exp + 1) (omega arith) (omega arith)
              (omega arith) (scale_low n div b low) (scale_high n div b high) in
          (d, e, rw large runs, omega arith, lo, hi)
      | inr done_now ↦ (
        div,
        exp,
        rw done_now refl,
        omega arith,
        last_low n div b p low,
        last_high n div b (ground (arith, done_now)) high,
      )
    ]

-- For every size that an int64 can hold, `formatBytes` finds a unit with a letter: the index stays
-- below the six letters, and the size is at least one unit and less than 1024 of them.
byte_unit_bounds :
    (b : ℕ)
    → 1024 ≤ b
    → b < 2 ^ 63
    → (div exp : ℕ) × (byte_unit b ≡ some (div, exp)) × (exp < 6) × (div ≤ b) × (b < div * 1024)
unfolding byte_unit
byte_unit_bounds b low high =
    let (d, e, runs, few, lo, hi) =
      unit_loop-ends 5 64 b (b / 1024) 1024 0 (unfold bound in omega arith) (omega arith)
        (omega arith) (omega arith) (omega arith) in
    (d, e, ground (arith, runs), omega arith, lo, hi)
