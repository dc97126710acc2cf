-- ===== src/Parser/Files.antt =====
-- internal/parser/parser.go: `Parse`, the loop over the events of the open file, and `ParseFiles`.
use database_flashback.Base.{
  ℕ, zero, suc, ◌*◌, ◌^◌, Bool, true, false, not, ◌&&◌, Option, none, some, List, [], ◌∷◌, ◌++◌,
  Bytes, length, ltb, ◌==◌, if◌then◌else◌, ◌>>=◌, Result, ok, err, panic, stuck, is_some,
}
use database_flashback.Value.{RowEvent}
use database_flashback.TableMap.{new_registry}
use database_flashback.Parser.Reader.{
  BinlogReader, Event, end_of_file, unreadable, event, open_bytes, close, read_event,
}
use database_flashback.Parser.Dispatch.{ParseOptions, BinlogParser, dispatch}

abbrev pub nanoseconds : ℕ → ℕ
nanoseconds seconds = seconds * 10 ^ 9

-- `ts.Before(p.opts.StartTime)` and `ts.After(p.opts.EndTime)`, where the bound is there.
abbrev pub is_before : ℕ → Option ℕ → Bool
is_before ts none = false
is_before ts (some start) = ltb (nanoseconds ts) start

abbrev pub is_after : ℕ → Option ℕ → Bool
is_after ts none = false
is_after ts (some end) = ltb end (nanoseconds ts)

-- An event that `dispatch` refuses is logged and skipped.
unfoldable pub dispatched :
    BinlogParser
    → Result BinlogParser
    → (BinlogParser → Result (BinlogParser × Bool))
    → Result (BinlogParser × Bool)
dispatched p (ok q) next = next q
dispatched p (err e) next = next p
dispatched p panic next = panic
dispatched p stuck next = stuck

-- What the loop of `Parse` does with the next event; the flag says whether it ends without an error.
unfoldable pub parse_event :
    BinlogParser
    → Event
    → (BinlogParser → Result (BinlogParser × Bool))
    → Result (BinlogParser × Bool)
unfolding dispatched dispatch
parse_event p end_of_file next = ok (p, true)
parse_event p unreadable next = ok (p, false)
parse_event p (event hdr payload reader) next =
    let q : BinlogParser = record p { reader = reader } in
    if not (hdr.type == 15) && is_before hdr.timestamp p.opts.start_time
    then next q
    else if is_after hdr.timestamp p.opts.end_time
    then ok (q, true)
    else dispatched q (dispatch q hdr payload) next

-- The loop of `Parse`, on fuel.
unfoldable pub parse_loop : ℕ → BinlogParser → Result (BinlogParser × Bool)
unfolding parse_event read_event
parse_loop zero p = stuck
parse_loop (suc fuel) p = parse_event p (read_event p.reader) (parse_loop fuel)

-- How many bytes of the file are left: each event takes at least its header.
abbrev pub bytes_left : Option Bytes → ℕ
bytes_left none = 0
bytes_left (some bytes) = length bytes

-- `Parse` of an open file.
unfoldable pub parse : BinlogParser → Result (BinlogParser × Bool)
unfolding parse_loop
parse p =
    if is_some p.reader.file
    then parse_loop (suc (bytes_left p.reader.file)) (record p { events = [] })
    else ok (p, false)

-- `Close`, and the reset between two files, which comes to the same.
unfoldable pub close_parser : BinlogParser → BinlogParser
unfolding close
close_parser p = record p {
  reader = close p.reader;
  reg = new_registry;
  events = [];
  checksum_enabled = false;
}

pub record ParseResult : Type 0 where
  pub parser : BinlogParser
  pub found : List RowEvent
  pub complete : Bool

abbrev pub is_last : List Bytes → Bool
is_last [] = true
is_last (path ∷ paths) = false

-- What follows `Parse` of one file: an error in the last file gives up its events, an error in
-- another file is passed over.
unfoldable pub after_file :
    List Bytes
    → List RowEvent
    → (BinlogParser → List RowEvent → Result ParseResult)
    → BinlogParser × Bool
    → Result ParseResult
unfolding close_parser
after_file paths found next (p, fine) =
    if not fine && is_last paths
    then ok (record { parser = close_parser p; found = found; complete = false })
    else next (close_parser p) (found ++ p.events)

module _ (open_path : Bytes → Option Bytes) where
  -- `p.Open(path)`, and then `Parse` unless the file cannot be opened.
  unfoldable pub opened :
      List RowEvent
      → (BinlogParser × Bool → Result ParseResult)
      → BinlogParser
      → BinlogReader × Bool
      → Result ParseResult
  unfolding parse
  opened found next p (reader, false) =
      ok (record { parser = record p { reader = reader }; found = found; complete = false })
  opened found next p (reader, true) = parse (record p { reader = reader }) >>= next

  -- The loop of `ParseFiles` over the paths.
  unfoldable pub files_loop : List Bytes → BinlogParser → List RowEvent → Result ParseResult
  unfolding open_bytes opened after_file
  files_loop [] p found = ok (record { parser = p; found = found; complete = true })
  files_loop (path ∷ paths) p found =
      opened found (after_file paths found (files_loop paths)) p
        (open_bytes p.reader path (open_path path))

  -- `ParseFiles`.
  unfoldable pub parse_files : BinlogParser → List Bytes → ParseOptions → Result ParseResult
  unfolding files_loop
  parse_files p paths opts = files_loop paths (record p { opts = opts; ddl_events = [] }) []
