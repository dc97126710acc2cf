-- ===== src/Parser/Filter.antt =====
-- internal/parser/parser.go: the loops of `Parse` and `ParseFiles` give only events that the options ask
-- for.
use database_flashback.Base.{
  ◌≡◌, refl, subst, ◌≢◌, ℕ, zero, suc, Bool, true, false, not, ◌&&◌, Option, none, some, List, [],
  ◌∷◌, ◌++◌, All, All-append, Bytes, ◌==◌, ==_iff, Result, ok, err, panic, stuck, OkThen,
  OkThen-bind, Bool-cases, inl, inr, arith, is_some,
}
use database_flashback.Value.{RowEvent}
use database_flashback.Wire.{EventHeader}
use database_flashback.Parser.Reader.{
  BinlogReader, Event, end_of_file, unreadable, event, read_event, open_bytes,
}
use database_flashback.Parser.Dispatch.{ParseOptions, BinlogParser, dispatch}
use database_flashback.Parser.Files.{
  is_before, is_after, dispatched, parse_event, parse_loop, parse, bytes_left, close_parser,
  ParseResult, after_file, is_last, opened, files_loop, parse_files,
}
use database_flashback.Parser.Window.{Wanted, Kept, dispatch-Kept}

open_bytes-file :
    (r : BinlogReader) (path : Bytes) (found : Option Bytes)
    → (open_bytes r path found).1 ≡ true
    → is_some (open_bytes r path found).0.file ≡ true
unfolding open_bytes
open_bytes-file r path none h = let e = h in (cc)
open_bytes-file r path (some bytes) h = ground (arith, h)

module _ (opts : ParseOptions) where
  abbrev Next : (BinlogParser → Result (BinlogParser × Bool)) → Type 0
  Next next = (q : BinlogParser) → Kept opts q → OkThen (λ r. Kept opts r.0) (next q)

  dispatched-Kept :
      (p : BinlogParser) (r : Result BinlogParser)
      (next : BinlogParser → Result (BinlogParser × Bool))
      → Kept opts p
      → OkThen (Kept opts) r
      → Next next
      → OkThen (λ r. Kept opts r.0) (dispatched p r next)
  unfolding dispatched
  dispatched-Kept p (ok q) next k h n = n q h
  dispatched-Kept p (err e) next k h n = n p k
  dispatched-Kept p panic next k h n = tt
  dispatched-Kept p stuck next k h n = tt

  not_early :
      (hdr : EventHeader) (b : Bool) → not (hdr.type == 15) && b ≡ false → hdr.type ≢ 15 → b ≡ false
  not_early hdr b h n = elim (Bool-cases (hdr.type == 15)) [
    | inl format ↦ absurd (n ((==_iff hdr.type 15).0 format))
    | inr other ↦ rw other at h
  ]

  parse_event-Kept :
      (p : BinlogParser) (e : Event) (next : BinlogParser → Result (BinlogParser × Bool))
      → Kept opts p
      → Next next
      → OkThen (λ r. Kept opts r.0) (parse_event p e next)
  unfolding parse_event
  parse_event-Kept p end_of_file next k n = k
  parse_event-Kept p unreadable next k n = k
  parse_event-Kept p (event hdr payload reader) next k n =
      let q : BinlogParser = record p { reader = reader } in
      elim (Bool-cases (not (hdr.type == 15) && is_before hdr.timestamp p.opts.start_time)) [
        | inl early ↦ rw early (n q k)
        | inr on ↦ elim (Bool-cases (is_after hdr.timestamp p.opts.end_time)) [
          | inl late ↦ rw (on, late) k
          | inr in_time ↦
              rw (on, in_time)
                (dispatched-Kept q (dispatch q hdr payload) next k
                  (dispatch-Kept opts q hdr payload k
                    (subst (λ o. hdr.type ≢ 15 → is_before hdr.timestamp o.start_time ≡ false) k.0
                      (not_early hdr _ on))
                    (subst (λ o. is_after hdr.timestamp o.end_time ≡ false) k.0 in_time))
                  n)
        ]
      ]

  parse_loop-Kept :
      (fuel : ℕ) (p : BinlogParser) → Kept opts p → OkThen (λ r. Kept opts r.0) (parse_loop fuel p)
  unfolding parse_loop
  parse_loop-Kept zero p k = tt
  parse_loop-Kept (suc fuel) p k =
      parse_event-Kept p (read_event p.reader) (parse_loop fuel) k (λ q h. parse_loop-Kept fuel q h)

  parse-Kept :
      (p : BinlogParser)
      → p.opts ≡ opts
      → is_some p.reader.file ≡ true
      → OkThen (λ r. Kept opts r.0) (parse p)
  unfolding parse
  parse-Kept p same open_file =
      rw open_file
        (parse_loop-Kept (suc (bytes_left p.reader.file)) (record p { events = [] }) (same, tt))

  abbrev Found : ParseResult → Type 0
  Found r = All (Wanted opts) r.found

  after_file-Kept :
      (paths : List Bytes) (found : List RowEvent)
      (next : BinlogParser → List RowEvent → Result ParseResult) (r : BinlogParser × Bool)
      → Kept opts r.0
      → All (Wanted opts) found
      → ((q : BinlogParser) (all : List RowEvent)
          → q.opts ≡ opts
          → All (Wanted opts) all
          → OkThen Found (next q all))
      → OkThen Found (after_file paths found next r)
  unfolding after_file close_parser
  after_file-Kept paths found next (p, fine) k h n = elim (Bool-cases (not fine && is_last paths)) [
    | inl give_up ↦ rw give_up h
    | inr go_on ↦
        rw go_on (
          n (close_parser p) (found ++ p.events) k.0
            (All-append (Wanted opts) found p.events h k.1))
  ]

  module _ (open_path : Bytes → Option Bytes) where
    opened-Kept :
        (found : List RowEvent) (next : BinlogParser × Bool → Result ParseResult) (p : BinlogParser)
        (r : BinlogReader × Bool)
        → p.opts ≡ opts
        → All (Wanted opts) found
        → (r.1 ≡ true → is_some r.0.file ≡ true)
        → ((r : BinlogParser × Bool) → Kept opts r.0 → OkThen Found (next r))
        → OkThen Found (opened open_path found next p r)
    unfolding opened
    opened-Kept found next p (reader, false) k h o n = h
    opened-Kept found next p (reader, true) k h o n =
        OkThen-bind (λ r. Kept opts r.0) Found (parse (record p { reader = reader })) next
          (parse-Kept (record p { reader = reader }) k (o refl)) n

    files_loop-Kept :
        (paths : List Bytes) (p : BinlogParser) (found : List RowEvent)
        → p.opts ≡ opts
        → All (Wanted opts) found
        → OkThen Found (files_loop open_path paths p found)
    unfolding files_loop
    files_loop-Kept [] p found k h = h
    files_loop-Kept (path ∷ paths) p found k h =
        opened-Kept found (after_file paths found (files_loop open_path paths)) p
          (open_bytes p.reader path (open_path path)) k h
          (open_bytes-file p.reader path (open_path path))
          (λ r m.
            after_file-Kept paths found (files_loop open_path paths) r m h
              (λ q all l g. files_loop-Kept paths q all l g))

-- Every event that `ParseFiles` gives, also beside an error, is of the target table, if one is named,
-- and its time is not before the start nor after the end, where these are given.
pub parse_files-Wanted :
    (open_path : Bytes → Option Bytes) (p : BinlogParser) (paths : List Bytes) (opts : ParseOptions)
    (r : ParseResult)
    → parse_files open_path p paths opts ≡ ok r
    → All (Wanted opts) r.found
unfolding parse_files
parse_files-Wanted open_path p paths opts r h =
    let kept =
      files_loop-Kept opts open_path paths (record p { opts = opts; ddl_events = [] }) [] refl tt in
    subst (OkThen (Found opts)) h kept
