-- ===== src/Parser/Reader.antt =====
-- internal/parser/reader.go: the reader of a binlog file. A file is the bytes that are left of it;
-- `os.Open` is a function from paths. That a read of an open file fails for another reason than its
-- end is left out.
use Prim.Native.Nat.{bit_and}
use database_flashback.Base.{
  ℕ, zero, suc, ◌+◌, ◌-◌, ◌*◌, ◌/◌, ◌%◌, ◌^◌, Bool, true, false, Option, none, some, [], ◌∷◌, ◌++◌,
  Bytes, length, take, drop, ltb, leb, ◌==◌, if◌then◌else◌, eq_bytes, Result, ok, err,
}
use database_flashback.Wire.{EventHeader, event_header_size, parse_event_header, little_endian}

-- `crc32.Checksum` with the IEEE table: the reflected polynomial, bit by bit.
abbrev xor : ℕ → ℕ → ℕ
xor a b = a + b - 2 * bit_and a b

unfoldable pub crc_bits : ℕ → ℕ → ℕ
crc_bits zero c = c
crc_bits (suc n) c = crc_bits n (if c % 2 == 1 then xor (c / 2) 0xEDB88320 else c / 2)

unfoldable pub crc_bytes : ℕ → Bytes → ℕ
unfolding crc_bits
crc_bytes c [] = c
crc_bytes c (b ∷ bs) = crc_bytes (crc_bits 8 (xor c b)) bs

unfoldable pub crc32 : Bytes → ℕ
unfolding crc_bytes
crc32 bytes = 2 ^ 32 - 1 - crc_bytes (2 ^ 32 - 1) bytes

pub record BinlogReader : Type 0 where
  pub file : Option Bytes
  pub path : Bytes
  pub position : ℕ
  pub checksum_crc : Bool

abbrev pub new_binlog_reader : BinlogReader
new_binlog_reader = record { file = none; path = []; position = 0; checksum_crc = false }

abbrev pub binlog_magic : Bytes
binlog_magic = 0xfe ∷ 0x62 ∷ 0x69 ∷ 0x6e ∷ []

-- `Open` of a path that `os.Open` gives the bytes of, or an error. The position after a file with a
-- wrong magic number is 0.
unfoldable pub open_bytes : BinlogReader → Bytes → Option Bytes → BinlogReader × Bool
open_bytes r path none = (r, false)
open_bytes r path (some bytes) =
    if leb 4 (length bytes)
    then (if eq_bytes (take 4 bytes) binlog_magic
        then (record r { file = some (drop 4 bytes); path = path; position = 4 }, true)
        else (record r { file = none; path = path; position = 0 }, false))
    else (record r { file = none; path = path; position = 0 }, false)

unfoldable close_file : BinlogReader → Option Bytes → BinlogReader
close_file r none = r
close_file r (some bytes) = new_binlog_reader

-- `Close`.
unfoldable pub close : BinlogReader → BinlogReader
unfolding close_file
close r = close_file r r.file

abbrev pub enable_checksum : BinlogReader → BinlogReader
enable_checksum r = record r { checksum_crc = true }

-- What `ReadEvent` returns: `io.EOF`, another error, or a header and a payload.
pub data Event : Type 0 where
  end_of_file : Event
  unreadable : Event
  event : EventHeader → Bytes → BinlogReader → Event

-- The checksum test, once the body is there.
unfoldable checked_body : BinlogReader → Bytes → EventHeader → Bytes → Bytes → Event
unfolding crc32 little_endian
checked_body r head hdr body rest =
    let next = record r { file = some rest; position = hdr.next_pos } in
    let size = length body - 4 in
    if r.checksum_crc
    then (if ltb (length body) 4
        then unreadable
        else if crc32 (head ++ take size body) == little_endian (drop size body)
        then event hdr (take size body) next
        else unreadable)
    else event hdr body next

-- The body behind the header.
unfoldable read_body : BinlogReader → Bytes → Bytes → Result EventHeader → Event
unfolding checked_body
read_body r head rest (ok hdr) =
    let body_len = hdr.event_len - event_header_size in
    if ltb hdr.event_len event_header_size
    then unreadable
    else if ltb (length rest) body_len
    then unreadable
    else checked_body r head hdr (take body_len rest) (drop body_len rest)
read_body r head rest (err e) = unreadable
read_body r head rest Result.panic = unreadable
read_body r head rest Result.stuck = unreadable

-- `ReadEvent`. A header that is cut off counts as the end of the file.
unfoldable read_event_of : BinlogReader → Option Bytes → Event
unfolding read_body parse_event_header
read_event_of r none = unreadable
read_event_of r (some bytes) =
    if ltb (length bytes) event_header_size
    then end_of_file
    else read_body r (take event_header_size bytes) (drop event_header_size bytes)
        (parse_event_header (take event_header_size bytes))

unfoldable pub read_event : BinlogReader → Event
unfolding read_event_of
read_event r = read_event_of r r.file
