-- ===== src/Wire/Packed.antt =====
-- Length-encoded integers and strings: what is read back, how far, and when the reader panics.
use database_flashback.Base.{
  leb, ◌⊎◌, inl, inr, Bool-cases, ltb→lt, ℕ, ◌+◌, ◌-◌, ◌%◌, ◌^◌, ◌≤◌, ◌<◌, ◌≡◌, ◌∙◌, [], ◌∷◌, ◌++◌,
  arith, Bytes, IsByte, All, length, length-append, ap, append_assoc, ltb, if◌then◌else◌, ok, err,
  panic, unexpected_eof,
}
use database_flashback.Wire.{
  got, bytes_at, wide_int, length_encoded_int, length_encoded_string, sized_string, word, half_word,
}
use native.Mathlib.Decide.{dec_lt}
use database_flashback.Wire.Layout.{
  byte_at-lt, little_endian-bytes_at-lt, le_bytes, length-le_bytes, little_endian-le_bytes,
  bytes_at-middle, byte_at-middle,
}

-- The encoding that MySQL documents: one byte up to 250, else a marker and 2, 3 or 8 bytes.
unfoldable pub encode_length : ℕ → Bytes
encode_length v =
    if ltb v 251
    then v ∷ []
    else if ltb v (2 ^ 16)
    then 0xfc ∷ le_bytes 2 v
    else if ltb v (2 ^ 24)
    then 0xfd ∷ le_bytes 3 v
    else 0xfe ∷ le_bytes 8 v

-- The bytes behind a marker.
marked_bytes :
    (before : Bytes) (marker n v : ℕ) (after : Bytes)
    → bytes_at (before ++ (marker ∷ (le_bytes n v ++ after))) (length before + 1) n ≡ le_bytes n v
marked_bytes before marker n v after =
    simp (append_assoc, length-append, length-le_bytes) at
      (bytes_at-middle (before ++ (marker ∷ [])) (le_bytes n v) after)

one_byte :
    (before : Bytes) (v : ℕ) (after : Bytes)
    → v < 251
    → length_encoded_int (before ++ (v ∷ after)) (length before) ≡ got v (length before + 1)
unfolding length_encoded_int
one_byte before v after h =
    ground (arith, length-append before (v ∷ after), byte_at-middle before v after)

wide_int_lem :
    (before : Bytes) (marker n v : ℕ) (after : Bytes)
    → v < 256 ^ n
    → wide_int (before ++ (marker ∷ (le_bytes n v ++ after))) (length before) n
      ≡ got v (length before + (n + 1))
unfolding wide_int
wide_int_lem before marker n v after h =
    rw (marked_bytes before marker n v after, little_endian-le_bytes n v h)
      (ground (
        arith,
        length-append before (marker ∷ (le_bytes n v ++ after)),
        length-append (le_bytes n v) after,
        length-le_bytes n v,
      ))

marker_case :
    (before : Bytes) (marker n : ℕ) (after : Bytes)
    → (marker ≡ 0xfc) × (n ≡ 2) ⊎ (marker ≡ 0xfd) × (n ≡ 3) ⊎ (marker ≡ 0xfe) × (n ≡ 8)
    → length_encoded_int (before ++ (marker ∷ after)) (length before)
      ≡ wide_int (before ++ (marker ∷ after)) (length before) n
unfolding length_encoded_int
marker_case before marker n after h =
    ground (arith, length-append before (marker ∷ after), byte_at-middle before marker after)

marked :
    (before : Bytes) (marker n v : ℕ) (after : Bytes)
    → (marker ≡ 0xfc) × (n ≡ 2) ⊎ (marker ≡ 0xfd) × (n ≡ 3) ⊎ (marker ≡ 0xfe) × (n ≡ 8)
    → v < 256 ^ n
    → length_encoded_int (before ++ ((marker ∷ le_bytes n v) ++ after)) (length before)
      ≡ got v (length before + length (marker ∷ le_bytes n v))
marked before marker n v after c h =
    marker_case before marker n (le_bytes n v ++ after) c
    ∙ wide_int_lem before marker n v after h
    ∙ ap (λ k. got v (length before + k)) (omega (arith, length-le_bytes n v))

-- `LengthEncodedInt` reads back what the documented encoding writes for a 64-bit number, wherever
-- it stands in the buffer, and stops behind it.
pub length_encoded_int-encode_length :
    (before : Bytes) (v : ℕ) (after : Bytes)
    → v < 2 ^ 64
    → length_encoded_int (before ++ (encode_length v ++ after)) (length before)
      ≡ got v (length before + length (encode_length v))
unfolding encode_length
length_encoded_int-encode_length before v after h = elim (Bool-cases (ltb v 251)) [
  | inl one ↦ rw one (one_byte before v after (ltb→lt v 251 one))
  | inr more ↦ rw more (elim (Bool-cases (ltb v (2 ^ 16))) [
    | inl two ↦
        rw two (marked before 0xfc 2 v after (omega arith) (omega (arith, ltb→lt v (2 ^ 16) two)))
    | inr wider ↦ rw wider (elim (Bool-cases (ltb v (2 ^ 24))) [
      | inl three ↦
          rw three
            (marked before 0xfd 3 v after (omega arith) (omega (arith, ltb→lt v (2 ^ 24) three)))
      | inr eight ↦ rw eight (marked before 0xfe 8 v after (omega arith) (omega arith))
    ])
  ])
]

wide_int-bounds :
    (buf : Bytes) (pos n v p : ℕ)
    → All IsByte buf
    → wide_int buf pos n ≡ got v p
    → (pos < p) × (p ≤ length buf) × (v < 256 ^ n)
unfolding wide_int
wide_int-bounds buf pos n v p bytes h =
    ground (arith, little_endian-bytes_at-lt buf (pos + 1) n bytes)

-- A length-encoded integer takes at least one byte, ends inside the buffer, and is a 64-bit number.
pub length_encoded_int-bounds :
    (buf : Bytes) (pos v p : ℕ)
    → All IsByte buf
    → length_encoded_int buf pos ≡ got v p
    → (pos < p) × (p ≤ length buf) × (v < 2 ^ 64)
unfolding length_encoded_int
length_encoded_int-bounds buf pos v p bytes h = ground (
  arith,
  byte_at-lt buf pos bytes,
  wide_int-bounds buf pos 2 v p bytes,
  wide_int-bounds buf pos 3 v p bytes,
  wide_int-bounds buf pos 8 v p bytes,
)

pub sized_string_lem :
    (buf : Bytes) (len p : ℕ)
    → p ≤ length buf
    → len < 2 ^ 64
    → length buf < 2 ^ 62
    → sized_string buf len p ≡ (
        if leb (p + len) (length buf)
        then ok (bytes_at buf p len, p + len)
        else if ltb (p + len) half_word
        then err unexpected_eof
        else panic)
unfolding sized_string
sized_string_lem buf len p inside wide small = elim (dec_lt (length buf) (p + len)) [
  | no fits ↦
      let sum : (p + len) % word ≡ p + len = omega arith in
      let span : p + len - p ≡ len = omega arith in rw (sum, span) (ground arith)
  | yes over ↦ ground arith
]

pub sized_string_fits :
    (buf : Bytes) (len p : ℕ)
    → p + len ≤ length buf
    → length buf < 2 ^ 62
    → sized_string buf len p ≡ ok (bytes_at buf p len, p + len)
sized_string_fits buf len p fits small =
    sized_string_lem buf len p (omega arith) (omega arith) small ∙ ground arith

-- Behind a length read at `pos`, in a buffer below 2 ^ 62 bytes, `LengthEncodedString` returns
-- exactly the bytes that the length asks for where they are there; it reports the end of the
-- input where they are not and the sum stays below 2 ^ 63; and it panics on any longer length,
-- whose sum with the position is negative as an `int`.
length_encoded_string_lem :
    (buf : Bytes) (pos len p : ℕ)
    → All IsByte buf
    → length buf < 2 ^ 62
    → length_encoded_int buf pos ≡ got len p
    → length_encoded_string buf pos ≡ (
        if leb (p + len) (length buf)
        then ok (bytes_at buf p len, p + len)
        else if ltb (p + len) half_word
        then err unexpected_eof
        else panic)
unfolding length_encoded_string
length_encoded_string_lem buf pos len p bytes small h =
    let (_, inside, wide) = length_encoded_int-bounds buf pos len p bytes h in
    rw (h, length_encoded_string) (sized_string_lem buf len p inside wide small)
