-- ===== src/Wire/Layout.antt =====
-- How the readers of internal/parser/event.go see a buffer that is built of parts.
use database_flashback.Base.{
  ◌+◌, get_or, ◌≤◌, drop, All-drop, All-take, length-take, length-drop, ℕ, zero, suc, ◌+◌, ◌/◌, ◌%◌,
  ◌^◌, ◌≤◌, ◌<◌, ◌≡◌, refl, ◌∙◌, [], ◌∷◌, ◌++◌, arith, Bytes, IsByte, All, length, take, drop,
  take-append, drop-append, ap,
}
use database_flashback.Wire.{little_endian, bytes_at, byte_at}
use native.Mathlib.Nat.{pow-suc}

-- The `n` bytes of a number, lowest first.
unfoldable pub le_bytes : ℕ → ℕ → Bytes
le_bytes zero v = []
le_bytes (suc n) v = (v % 256) ∷ le_bytes n (v / 256)

pub length-le_bytes : (n v : ℕ) → length (le_bytes n v) ≡ n
unfolding le_bytes
length-le_bytes zero v = refl
length-le_bytes (suc n) v = ap suc (length-le_bytes n (v / 256))

pub little_endian-le_bytes : (n v : ℕ) → v < 256 ^ n → little_endian (le_bytes n v) ≡ v
unfolding little_endian le_bytes
little_endian-le_bytes zero v h = omega arith
little_endian-le_bytes (suc n) v h =
    omega (arith, little_endian-le_bytes n (v / 256) (omega (arith, pow-suc 256 n, h)))

little_endian-lt : (bs : Bytes) → All IsByte bs → little_endian bs < 256 ^ length bs
unfolding little_endian
little_endian-lt [] h = omega arith
little_endian-lt (b ∷ bs) h = omega (arith, little_endian-lt bs h.1, pow-suc 256 (length bs), h.0)

-- A part in the middle is found at the length of what stands before it.
pub bytes_at-middle :
    (before part after : Bytes)
    → bytes_at (before ++ (part ++ after)) (length before) (length part) ≡ part
bytes_at-middle before part after =
    ap (take (length part)) (drop-append before (part ++ after)) ∙ take-append part after

pub byte_at-middle :
    (before : Bytes) (b : ℕ) (after : Bytes) → byte_at (before ++ (b ∷ after)) (length before) ≡ b
byte_at-middle [] b after = refl
byte_at-middle (x ∷ before) b after = byte_at-middle before b after

pub length-bytes_at :
    (buf : Bytes) (pos n : ℕ) → pos + n ≤ length buf → length (bytes_at buf pos n) ≡ n
length-bytes_at buf pos n h = omega (arith, length-take n (drop pos buf), length-drop pos buf)

first-lt : (bs : Bytes) → All IsByte bs → get_or bs 0 0 < 256
first-lt [] h = omega arith
first-lt (b ∷ bs) h = h.0

pub byte_at-lt : (buf : Bytes) (pos : ℕ) → All IsByte buf → byte_at buf pos < 256
byte_at-lt buf pos h = first-lt (drop pos buf) (All-drop IsByte pos buf h)

-- `n` bytes of the buffer are a number below 256 ^ n.
pub little_endian-bytes_at-lt :
    (buf : Bytes) (pos n : ℕ)
    → All IsByte buf
    → pos + n ≤ length buf
    → little_endian (bytes_at buf pos n) < 256 ^ n
little_endian-bytes_at-lt buf pos n h fits = rw (length-bytes_at buf pos n fits) at (
    little_endian-lt (bytes_at buf pos n)
      (All-take IsByte n (drop pos buf) (All-drop IsByte pos buf h)))
