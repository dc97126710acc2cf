-- ===== src/Wire.antt =====
-- internal/parser/event.go: the event header, the integer and string readers, and bitmaps.
-- `Packed` proves the length-encoded readers, `Bitmap` the bitmaps, `Layout` how readers see a
-- buffer that is built of parts.
pub mod Layout
pub mod Packed
pub mod Bitmap
mod Examples
use Prim.Native.Nat.{bit_and}
use database_flashback.Base.{
  ℕ, zero, suc, ◌+◌, ◌-◌, ◌*◌, ◌/◌, ◌%◌, ◌^◌, Bool, false, not, ◌&&◌, List, [], ◌∷◌, Bytes, length,
  get_or, take, drop, ltb, leb, ◌==◌, if◌then◌else◌, ◌>>=◌, Result, ok, err, panic, unexpected_eof,
}
use database_flashback.Base.Int.{ℤ, signed}

-- Go's `(value, pos, err)`: the value and the position behind it, or `io.ErrUnexpectedEOF` with
-- the position that is returned beside it.
pub data Read {ℓ} (A : Type ℓ) : Type ℓ where
  got : A → ℕ → Read A
  eof : ℕ → Read A

-- The readers of a record give up on the first error.
abbrev pub or_eof {ℓ κ} : {A : Type ℓ} {B : Type κ} → Read A → (A → ℕ → Result B) → Result B
or_eof (got a p) next = next a p
or_eof (eof p) next = err unexpected_eof

-- The value of bytes, lowest first.
unfoldable pub little_endian : Bytes → ℕ
little_endian [] = 0
little_endian (b ∷ bs) = b + 256 * little_endian bs

-- The `n` bytes at `pos`, and the byte there, under a check that they are in the buffer.
abbrev pub bytes_at : Bytes → ℕ → ℕ → Bytes
bytes_at buf pos n = take n (drop pos buf)

abbrev pub byte_at : Bytes → ℕ → ℕ
byte_at buf pos = get_or (drop pos buf) 0 0

-- `if pos+n > len(data)`, and otherwise the bytes given to `fn`, with the position behind them.
unfoldable pub read_bytes {ℓ} : {A : Type ℓ} → Bytes → ℕ → ℕ → (Bytes → A) → Read A
read_bytes buf pos n fn =
    if ltb (length buf) (pos + n) then eof pos else got (fn (bytes_at buf pos n)) (pos + n)

-- `readUint16`, `readUint24`, `readUint32` and `readUint64` for n = 2, 3, 4, 8.
unfoldable read_uint : Bytes → ℕ → ℕ → Read ℕ
unfolding read_bytes
read_uint buf pos n = read_bytes buf pos n little_endian

-- `readInt16`, `readInt24`, `readInt32` and `readInt64`: the same bits, read as two's complement.
unfoldable pub read_int : Bytes → ℕ → ℕ → Read ℤ
unfolding read_bytes
read_int buf pos n = read_bytes buf pos n (λ b. signed (256 ^ n / 2) (little_endian b))

-- The loop `v = (v << 8) | uint64(data[pos+i])` of `readUintBE`.
unfoldable pub big_endian : ℕ → Bytes → ℕ
big_endian v [] = v
big_endian v (b ∷ bs) = big_endian (v * 256 + b) bs

unfoldable pub read_uint_be : Bytes → ℕ → ℕ → Read ℕ
unfolding read_bytes
read_uint_be buf pos n = read_bytes buf pos n (big_endian 0)

pub record EventHeader : Type 0 where
  pub timestamp : ℕ
  pub type : ℕ
  pub server_id : ℕ
  pub event_len : ℕ
  pub next_pos : ℕ
  pub flags : ℕ

abbrev pub event_header_size : ℕ
event_header_size = 19

unfoldable pub parse_event_header : Bytes → Result EventHeader
parse_event_header buf =
    if ltb (length buf) event_header_size
    then err unexpected_eof
    else ok (record {
      timestamp = little_endian (bytes_at buf 0 4);
      type = byte_at buf 4;
      server_id = little_endian (bytes_at buf 5 4);
      event_len = little_endian (bytes_at buf 9 4);
      next_pos = little_endian (bytes_at buf 13 4);
      flags = little_endian (bytes_at buf 17 2);
    })

-- The cases 0xfc, 0xfd and 0xfe of `LengthEncodedInt`: `n` bytes behind the marker.
unfoldable pub wide_int : Bytes → ℕ → ℕ → Read ℕ
wide_int buf pos n =
    if ltb (length buf) (pos + (n + 1))
    then eof pos
    else got (little_endian (bytes_at buf (pos + 1) n)) (pos + (n + 1))

-- `LengthEncodedInt`: a first byte up to 0xfa is the value, 0xfb stands for NULL, and the others
-- say how many bytes follow. (0xff is read as the value 255.)
unfoldable pub length_encoded_int : Bytes → ℕ → Read ℕ
unfolding wide_int
length_encoded_int buf pos =
    let first = byte_at buf pos in
    if leb (length buf) pos
    then eof pos
    else if first == 0xfb
    then got 0 (pos + 1)
    else if first == 0xfc
    then wide_int buf pos 2
    else if first == 0xfd
    then wide_int buf pos 3
    else if first == 0xfe
    then wide_int buf pos 8
    else got first (pos + 1)

-- A Go `int` is its 64-bit pattern: a negative one is a pattern from 2 ^ 63 on. `add_int` wraps
-- as the machine does, and `gt_int` is `a > b` for a `b` that is not negative.
abbrev pub word : ℕ
word = 2 ^ 64

abbrev pub half_word : ℕ
half_word = 2 ^ 63

abbrev pub add_int : ℕ → ℕ → ℕ
add_int a b = (a + b) % word

abbrev pub gt_int : ℕ → ℕ → Bool
gt_int a b = ltb a half_word && ltb b a

-- `data[lo:hi]`: a run-time panic unless 0 <= lo <= hi <= len(data).
unfoldable pub slice : Bytes → ℕ → ℕ → Result Bytes
slice buf lo hi = if leb lo hi && leb hi (length buf) then ok (bytes_at buf lo (hi - lo)) else panic

-- `LengthEncodedString` behind the length, which `int(length)` takes bit by bit.
unfoldable pub sized_string : Bytes → ℕ → ℕ → Result (Bytes × ℕ)
unfolding slice
sized_string buf len p =
    let end = add_int p len in
    if gt_int end (length buf) then err unexpected_eof else (slice buf p end >>= λ s. ok (s, end))

unfoldable pub length_encoded_string : Bytes → ℕ → Result (Bytes × ℕ)
unfolding length_encoded_int sized_string
length_encoded_string buf pos = or_eof (length_encoded_int buf pos) (sized_string buf)

-- The scan of `NullTerminatedString`, over the bytes from `end` on.
unfoldable find_null : Bytes → ℕ → ℕ
find_null [] end = end
find_null (b ∷ bs) end = let rest = find_null bs (end + 1) in if b == 0 then end else rest

unfoldable pub null_terminated_string : Bytes → ℕ → Read Bytes
unfolding find_null
null_terminated_string buf pos =
    let end = find_null (drop pos buf) pos in
    if leb (length buf) end then eof pos else got (bytes_at buf pos (end - pos)) (end + 1)

unfoldable fixed_length_string : Bytes → ℕ → ℕ → Read Bytes
unfolding read_bytes
fixed_length_string buf pos n = read_bytes buf pos n (λ b. b)

-- `BitmapByteSize` on the pattern of an `int`: `(n + 7) / 8`, where `/` rounds towards zero.
unfoldable pub bitmap_byte_size : ℕ → ℕ
bitmap_byte_size n =
    let m = add_int n 7 in if ltb m half_word then m / 8 else (word - (word - m) / 8) % word

unfoldable pub is_bit_set : Bytes → ℕ → Bool
is_bit_set bitmap bit =
    let byte_idx = bit / 8 in
    let bit_idx = bit % 8 in
    if leb (length bitmap) byte_idx
    then false
    else not (bit_and (byte_at bitmap byte_idx) (2 ^ bit_idx) == 0)

-- The loop of `PopCount` over `i`, with the rounds that are left and `count`.
unfoldable pub pop_loop : Bytes → ℕ → ℕ → ℕ → ℕ
unfolding is_bit_set
pop_loop bitmap zero i count = count
pop_loop bitmap (suc left) i count =
    pop_loop bitmap left (i + 1) (if is_bit_set bitmap i then count + 1 else count)

unfoldable pub pop_count : Bytes → ℕ → ℕ
unfolding pop_loop
pop_count bitmap n = pop_loop bitmap n 0 0
