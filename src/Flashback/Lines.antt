-- ===== src/Flashback/Lines.antt =====
-- cmd/agent/flashback.go: the lines of mysqlbinlog that its scanner hands on, up to the first one that fills
-- its buffer.
use database_flashback.Base.{
  ◌≡◌, refl, ap, ◌<◌, ◌≤◌, true, false, List, [], ◌∷◌, ◌++◌, All, Bytes, Option, length, ltb, arith,
}
use database_flashback.Value.{Float}
use database_flashback.Flashback.Scan.{max_token, scanned, parse_output}

pub All-scanned :
    (lines : List Bytes) → All (λ line. length line < max_token) lines → scanned lines ≡ lines
unfolding scanned
All-scanned [] h = refl
All-scanned (line ∷ lines) h =
    let short : ltb (length line) max_token ≡ true = ground (arith, h.0) in
    rw short (ap (λ l. line ∷ l) (All-scanned lines h.1))

scanned_cut :
    (xs : List Bytes) (line : Bytes) (ys : List Bytes)
    → max_token ≤ length line
    → scanned (xs ++ (line ∷ ys)) ≡ scanned xs
unfolding scanned
scanned_cut [] line ys h =
    let long : ltb (length line) max_token ≡ false = ground (arith, h) in rw long refl
scanned_cut (x ∷ xs) line ys h = rw (scanned_cut xs line ys h) refl

module _ (zero_float : Float) (scan_float : Bytes → Option Float) (database table : Bytes)
    (names : List Bytes) where
  -- A line of the output that is as long as the scanner's buffer, or longer, ends the scan: the result
  -- is that of the lines in front of it, whatever rows follow, and there is no error.
  parse_output_cut :
      (xs : List Bytes) (line : Bytes) (ys : List Bytes)
      → max_token ≤ length line
      → parse_output zero_float scan_float database table names (xs ++ (line ∷ ys))
        ≡ parse_output zero_float scan_float database table names xs
  unfolding parse_output
  parse_output_cut xs line ys h = rw (scanned_cut xs line ys h) refl
