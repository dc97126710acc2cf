-- ===== src/Flashback/Blocks.antt =====
-- cmd/agent/flashback.go: the output of mysqlbinlog as blocks of lines, one for each row of the table.
use database_flashback.Base.{
  ◌≡◌, refl, sym, subst, ap, ◌∙◌, ◌<◌, true, false, ◌==◌, Option, none, some, List, [], ◌∷◌, ◌++◌,
  map, concat, All, Bytes, text, length, if◌then◌else◌, Bool-cases, inl, inr,
}
use mathlib.Core.List
use database_flashback.Value.{Float, Value, EventType, RowEvent}
use database_flashback.Parser.Ddl.{has_prefix, index_of}
use database_flashback.Flashback.Scan.{
  parse_column_value, make_row_event, ScanState, first_state, behind_equals, row_kind, max_token,
  table_pattern, flush, added, other_line, kind_line, scan_line, scan_lines, last_row, parse_output,
}
use database_flashback.Flashback.Lines.{All-scanned}

-- A row as mysqlbinlog prints it: the line that begins it, its further lines, and lines of another
-- kind before the next row.
pub record Block : Type 0 where
  pub type : EventType
  pub head : Bytes
  pub body : List Bytes
  pub rest : List Bytes

abbrev pub lines_of : Block → List Bytes
lines_of b = b.head ∷ (b.body ++ b.rest)

prefix_longer : (s p q : Bytes) → has_prefix s p ≡ false → has_prefix s (p ++ q) ≡ false
prefix_longer s [] q h = let e = h in (cc)
prefix_longer [] (c ∷ p) q h = refl
prefix_longer (d ∷ s) (c ∷ p) q h = elim (Bool-cases (d == c)) [
  | inl same ↦ rw same (prefix_longer s p q (rw same at h))
  | inr other ↦ rw other refl
]

-- What a column line begins with begins with the mark of a comment.
column_prefix :
    (line : Bytes) → has_prefix line (text "###") ≡ false → has_prefix line (text "###   @") ≡ false
column_prefix line h = prefix_longer line (text "###") (text "   @") h

module _ (zero_float : Float) (scan_float : Bytes → Option Float) (database table : Bytes)
    (names : List Bytes) where
  abbrev pattern' : Bytes
  pattern' = table_pattern database table

  -- A line of a row: a comment that begins no row of the table.
  abbrev IsRowLine : Bytes → Type 0
  IsRowLine line = (row_kind pattern' line ≡ none) × (has_prefix line (text "###") ≡ true)

  -- A line that is no comment.
  abbrev IsOtherLine : Bytes → Type 0
  IsOtherLine line = (row_kind pattern' line ≡ none) × (has_prefix line (text "###") ≡ false)

  abbrev pub IsBlock : Block → Type 0
  IsBlock b =
      (row_kind pattern' b.head ≡ some b.type) × All IsRowLine b.body × All IsOtherLine b.rest

  abbrev parsed : Option Bytes → List Value
  parsed none = []
  parsed (some value') = parse_column_value zero_float scan_float value' ∷ []

  -- The values of the lines `###   @i=…`.
  unfoldable values_of : List Bytes → List Value
  values_of [] = []
  values_of (line ∷ lines) =
      (if has_prefix line (text "###   @")
        then parsed (behind_equals line (index_of line (text "=")))
        else [])
      ++ values_of lines

  unfoldable pub event_of : Block → RowEvent
  unfolding values_of make_row_event
  event_of b = make_row_event b.type database table (values_of b.body) names

  abbrev scan : ScanState → List Bytes → ScanState
  scan s lines = scan_lines zero_float scan_float database table names s lines

  abbrev row_state : List RowEvent → EventType → List Value → ScanState
  row_state events type values = record {
    events = events;
    ev_type = type;
    values = values;
    in_row = true;
  }

  scan-append : (s : ScanState) (xs ys : List Bytes) → scan s (xs ++ ys) ≡ scan (scan s xs) ys
  unfolding scan_lines
  scan-append s [] ys = refl
  scan-append s (x ∷ xs) ys =
      scan-append (scan_line zero_float scan_float database table names s x) xs ys

  added_row :
      (events : List RowEvent) (type : EventType) (values : List Value) (found : Option Bytes)
      → added zero_float scan_float database table names (row_state events type values) found
        ≡ row_state events type (values ++ parsed found)
  unfolding added
  added_row events type values none = ap (row_state events type) (sym (List.append-nil values))
  added_row events type values (some value') = refl

  row_line :
      (events : List RowEvent) (type : EventType) (values : List Value) (line : Bytes)
      → IsRowLine line
      → scan_line zero_float scan_float database table names (row_state events type values) line
        ≡ row_state events type (
            values
            ++ (if has_prefix line (text "###   @")
                then parsed (behind_equals line (index_of line (text "=")))
                else []))
  unfolding scan_line kind_line other_line
  row_line events type values line h = elim (Bool-cases (has_prefix line (text "###   @"))) [
    | inl column ↦
        rw
          (
            h.0,
            column,
            added_row events type values (behind_equals line (index_of line (text "="))),
            h.1,
          )
          refl
    | inr other ↦ rw (h.0, other, h.1, List.append-nil values) refl
  ]

  row_lines :
      (events : List RowEvent) (type : EventType) (values : List Value) (body : List Bytes)
      → All IsRowLine body
      → scan (row_state events type values) body ≡ row_state events type (values ++ values_of body)
  unfolding scan_lines values_of
  row_lines events type values [] h = ap (row_state events type) (sym (List.append-nil values))
  row_lines events type values (line ∷ body) h =
      let more =
        if has_prefix line (text "###   @")
        then parsed (behind_equals line (index_of line (text "=")))
        else [] in
      ap (λ s. scan s body) (row_line events type values line h.0)
      ∙ row_lines events type (values ++ more) body h.1
      ∙ ap (row_state events type) (List.append_assoc values more (values_of body))

  abbrev closed_state : List RowEvent → EventType → List Value → ScanState
  closed_state events type values = record {
    events = events;
    ev_type = type;
    values = values;
    in_row = false;
  }

  -- Lines behind a flushed row change nothing.
  other_lines :
      (events : List RowEvent) (type : EventType) (values : List Value) (rest : List Bytes)
      → All IsOtherLine rest
      → scan (closed_state events type values) rest ≡ closed_state events type values
  unfolding scan_lines scan_line kind_line other_line
  other_lines events type values [] h = refl
  other_lines events type values (line ∷ rest) h =
      rw h.0.0 (other_lines events type values rest h.1)

  -- All events, with the row that is being read.
  abbrev events_of : ScanState → List RowEvent
  events_of s = (flush zero_float scan_float database table names s).events

  begin_row :
      (s : ScanState) (line : Bytes) (type : EventType)
      → row_kind pattern' line ≡ some type
      → scan_line zero_float scan_float database table names s line
        ≡ row_state (events_of s) type []
  unfolding scan_line kind_line
  begin_row s line type h = rw h refl

  end_line :
      (events : List RowEvent) (type : EventType) (values : List Value) (line : Bytes)
      → IsOtherLine line
      → scan_line zero_float scan_float database table names (row_state events type values) line
        ≡ closed_state (events ++ (make_row_event type database table values names ∷ [])) type []
  unfolding scan_line kind_line other_line flush
  end_line events type values line h = rw (h.0, column_prefix line h.1, h.1) refl

  end_row :
      (events : List RowEvent) (type : EventType) (values : List Value) (rest : List Bytes)
      → All IsOtherLine rest
      → events_of (scan (row_state events type values) rest)
        ≡ events ++ (make_row_event type database table values names ∷ [])
  unfolding scan_lines flush
  end_row events type values [] h = refl
  end_row events type values (line ∷ rest) h =
      let event = make_row_event type database table values names in
      ap (λ s. events_of (scan s rest)) (end_line events type values line h.0)
      ∙ ap events_of (other_lines (events ++ (event ∷ [])) type [] rest h.1)

  -- One block gives one event.
  scan-block :
      (s : ScanState) (b : Block)
      → IsBlock b
      → events_of (scan s (lines_of b)) ≡ events_of s ++ (event_of b ∷ [])
  unfolding scan_lines event_of
  scan-block s b h =
      ap (λ t. events_of (scan t (b.body ++ b.rest))) (begin_row s b.head b.type h.0)
      ∙ ap events_of (scan-append (row_state (events_of s) b.type []) b.body b.rest)
      ∙ ap (λ t. events_of (scan t b.rest)) (row_lines (events_of s) b.type [] b.body h.1)
      ∙ end_row (events_of s) b.type (values_of b.body) b.rest h.2

  scan-blocks :
      (s : ScanState) (bs : List Block)
      → All IsBlock bs
      → events_of (scan s (concat (map lines_of bs))) ≡ events_of s ++ map event_of bs
  unfolding scan_lines
  scan-blocks s [] h = sym (List.append-nil (events_of s))
  scan-blocks s (b ∷ bs) h =
      ap events_of (scan-append s (lines_of b) (concat (map lines_of bs)))
      ∙ scan-blocks (scan s (lines_of b)) bs h.1
      ∙ ap (λ es. es ++ map event_of bs) (scan-block s b h.0)
      ∙ List.append_assoc (events_of s) (event_of b ∷ []) (map event_of bs)

  open_eta : (s : ScanState) → s.in_row ≡ true → s ≡ row_state s.events s.ev_type s.values
  open_eta s e =
      λ i. record { events = s.events; ev_type = s.ev_type; values = s.values; in_row = e i }

  closed_eta : (s : ScanState) → s.in_row ≡ false → s ≡ closed_state s.events s.ev_type s.values
  closed_eta s e =
      λ i. record { events = s.events; ev_type = s.ev_type; values = s.values; in_row = e i }

  abbrev last_after : ScanState → Bytes → List RowEvent
  last_after s line =
      last_row zero_float scan_float database table names
        (scan_line zero_float scan_float database table names s line)

  -- A line that is no comment closes the row that is being read.
  last_row-closed :
      (s : ScanState) (line : Bytes) → IsOtherLine line → last_after s line ≡ events_of s
  unfolding last_row flush scan_lines
  last_row-closed s line h = elim (Bool-cases s.in_row) [
    | inl reading ↦
        subst (λ t. last_after t line ≡ events_of t) (sym (open_eta s reading))
          (ap (last_row zero_float scan_float database table names)
            (end_line s.events s.ev_type s.values line h))
    | inr closed ↦
        subst (λ t. last_after t line ≡ events_of t) (sym (closed_eta s closed))
          (ap (last_row zero_float scan_float database table names)
            (other_lines s.events s.ev_type s.values (line ∷ []) (h, tt)))
  ]

  -- If the output of mysqlbinlog consists of blocks for the rows of the table, each with a line that
  -- begins a row of its kind, comment lines, and lines that are no comments, and one more line that
  -- is no comment, and no line is as long as the scanner's buffer, then the parser gives one event
  -- for each block, in order, made of the kind and the column values of the block.
  pub parse_output-blocks :
      (bs : List Block) (end_of_log : Bytes)
      → All IsBlock bs
      → IsOtherLine end_of_log
      → All (λ line. length line < max_token) (concat (map lines_of bs) ++ (end_of_log ∷ []))
      → parse_output zero_float scan_float database table names
          (concat (map lines_of bs) ++ (end_of_log ∷ []))
        ≡ map event_of bs
  unfolding parse_output scan_lines flush
  parse_output-blocks bs end_of_log h e short =
      ap (λ l. last_row zero_float scan_float database table names (scan first_state l))
        (All-scanned _ short)
      ∙ ap (last_row zero_float scan_float database table names)
          (scan-append first_state (concat (map lines_of bs)) (end_of_log ∷ []))
      ∙ last_row-closed (scan first_state (concat (map lines_of bs))) end_of_log e
      ∙ scan-blocks first_state bs h
