-- ===== src/Ws/Agent/Backoff.antt =====
-- internal/ws/agent/client.go: `nextBackoff` and `reconnect`. A duration is an int64, in nanoseconds.
use database_flashback.Base.{
  ap, sym, ◌∙◌, ℕ, zero, suc, ◌+◌, ◌*◌, ◌/◌, ◌%◌, ◌^◌, ◌≤◌, ◌<◌, ◌≡◌, refl, Bool, true, false, ◌&&◌,
  Option, none, some, List, [], ◌∷◌, if◌then◌else◌, ltb, leb, arith, Result, ok, panic, ◌>>=◌,
  length,
}
use database_flashback.Base.Int.{ℤ, pos, negsuc, signed}

abbrev pub second : ℕ
second = 1_000_000_000

-- `reconnectMinWait` and `reconnectMaxWait`.
abbrev reconnect_min_wait : ℕ
reconnect_min_wait = second

abbrev reconnect_max_wait : ℕ
reconnect_max_wait = 60 * second

-- `time.Duration(1<<uint(attempt)) * reconnectMinWait`: a shift by 64 or more gives 0, and the
-- product keeps its low 64 bits.
raw_backoff : ℕ → ℤ
raw_backoff attempt = signed (2 ^ 63) (2 ^ attempt % 2 ^ 64 * reconnect_min_wait % 2 ^ 64)

clamp_backoff : ℤ → ℤ
clamp_backoff (pos n) = pos (if ltb reconnect_max_wait n then reconnect_max_wait else n)
clamp_backoff (negsuc n) = negsuc n

-- `rand.Int63n` panics unless its argument is positive; `random` stands for the source of numbers.
-- A negative duration divided by 4 is at most 0.
with_jitter : ℕ → ℤ → Result ℕ
with_jitter random (negsuc n) = panic
with_jitter random (pos n) = if ltb 0 (n / 4) then ok (n + random % (n / 4)) else panic

-- `nextBackoff`.
next_backoff : ℕ → ℕ → Result ℕ
unfolding raw_backoff clamp_backoff with_jitter
next_backoff attempt random = with_jitter random (clamp_backoff (raw_backoff attempt))

-- What `reconnect` changes: the connection and the count of failed attempts.
pub record Link : Type 0 where
  pub conn : Option ℕ
  pub reconnect_attempt : ℕ

-- `reconnect`, with what the dial gives; the process ends if `nextBackoff` panics.
pub reconnect : ℕ → Option ℕ → Link → Result Link
unfolding next_backoff
reconnect random dialled l = next_backoff l.reconnect_attempt random >>= λ wait. elim dialled [
  | none ↦ ok (record l { reconnect_attempt = suc l.reconnect_attempt })
  | some k ↦ ok (record l { conn = some k; reconnect_attempt = 0 })
]

-- The loop of `connectionManager` while the platform cannot be reached: one random number for each
-- dial that fails.
pub failed_dials : List ℕ → Link → Result Link
unfolding reconnect
failed_dials [] l = ok l
failed_dials (random ∷ rs) l = reconnect random none l >>= failed_dials rs

-- The backoff is between a second and a minute.
abbrev sound_backoff : ℕ → Bool
sound_backoff attempt = elim (clamp_backoff (raw_backoff attempt)) [
  | negsuc n ↦ false
  | pos n ↦ leb reconnect_min_wait n && leb n reconnect_max_wait
]

-- The next attempts, as many as the first argument says, have such a backoff.
sound_attempts : ℕ → ℕ → Bool
sound_attempts zero attempt = true
sound_attempts (suc left) attempt =
    let others = sound_attempts left (suc attempt) in
    if sound_backoff attempt then others else false

first_attempts : sound_attempts 34 0 ≡ true
unfolding sound_attempts clamp_backoff raw_backoff
first_attempts = refl

sound_attempts-sound_backoff :
    (left attempt later : ℕ)
    → sound_attempts left attempt ≡ true
    → later < left
    → sound_backoff (attempt + later) ≡ true
unfolding sound_attempts
sound_attempts-sound_backoff zero attempt later all within = absurd (omega arith)
sound_attempts-sound_backoff (suc left) attempt zero all within =
    let here : attempt + 0 ≡ attempt = omega arith in
    let sound : sound_backoff attempt ≡ true = ground (arith, all) in ap sound_backoff here ∙ sound
sound_attempts-sound_backoff (suc left) attempt (suc later) all within =
    let moved : attempt + suc later ≡ suc attempt + later = omega arith in
    let rest : sound_attempts left (suc attempt) ≡ true = ground (arith, all) in
    ap sound_backoff moved
    ∙ sound_attempts-sound_backoff left (suc attempt) later rest (omega arith)

with_jitter_bounds :
    (b : ℤ) (random : ℕ)
    → (elim b [ negsuc n ↦ false | pos n ↦ leb reconnect_min_wait n && leb n reconnect_max_wait ])
      ≡ true
    → (wait : ℕ) × (with_jitter random b ≡ ok wait)
      × (reconnect_min_wait ≤ wait)
      × (wait < 75 * second)
unfolding with_jitter
with_jitter_bounds (negsuc n) random h = cc
with_jitter_bounds (pos n) random h =
    let low : reconnect_min_wait ≤ n = ground (arith, h) in
    let high : n ≤ reconnect_max_wait = ground (arith, h) in
    let jitter : random % (n / 4) < n / 4 = grind arith in
    (n + random % (n / 4), ground arith, omega arith, omega arith)

-- After at most 33 failed attempts the next wait is defined, at least a second, and below 75 seconds.
next_backoff_bounds :
    (attempt random : ℕ)
    → attempt < 34
    → (wait : ℕ) × (next_backoff attempt random ≡ ok wait)
      × (reconnect_min_wait ≤ wait)
      × (wait < 75 * second)
unfolding next_backoff
next_backoff_bounds attempt random h =
    let from_zero : 0 + attempt ≡ attempt = omega arith in
    let sound : sound_backoff attempt ≡ true =
      ap sound_backoff (sym from_zero)
      ∙ sound_attempts-sound_backoff 34 0 attempt first_attempts h in
    with_jitter_bounds (clamp_backoff (raw_backoff attempt)) random sound

next_backoff-panics : (random : ℕ) → next_backoff 34 random ≡ panic
unfolding next_backoff with_jitter clamp_backoff raw_backoff
next_backoff-panics random = refl

failed_dials-attempts :
    (rs : List ℕ) (l : Link)
    → l.reconnect_attempt + length rs ≤ 34
    → failed_dials rs l ≡ ok (record l { reconnect_attempt = l.reconnect_attempt + length rs })
unfolding failed_dials reconnect
failed_dials-attempts [] l h = ground arith
failed_dials-attempts (random ∷ rs) l h =
    let (wait, e, _, _) = next_backoff_bounds l.reconnect_attempt random (omega arith) in
    let rest =
      failed_dials-attempts rs (record l { reconnect_attempt = suc l.reconnect_attempt })
        (omega arith) in
    rw e (ground (arith, rest))

-- When the platform cannot be reached for 34 dials in a row, whatever the random numbers, the agent
-- panics at the next attempt, whether or not the platform would answer it: the backoff has left the
-- range of its 64 bits.
pub reconnect_panics :
    (rs : List ℕ) (l : Link) (random : ℕ) (dialled : Option ℕ)
    → l.reconnect_attempt ≡ 0
    → length rs ≡ 34
    → (failed_dials rs l >>= reconnect random dialled) ≡ panic
unfolding reconnect
reconnect_panics rs l random dialled fresh long =
    rw (failed_dials-attempts rs l (omega arith), fresh, long)
      (ground (arith, next_backoff-panics random))
