-- ===== src/Value/Literal.antt =====
-- internal/parser/sql.go: how a server reads back a quoted value. `read_standard` is the reading
-- with backslashes as plain characters (sql_mode NO_BACKSLASH_ESCAPES), and `read_default` the one
-- of MySQL's default mode, where a backslash takes the next character with it.
use database_flashback.Base.{
  sym, ==_iff, false, append_assoc, ℕ, ◌≡◌, ◌≢◌, ◌∙◌, refl, ap, Bool-cases, inl, inr, Option, none,
  some, [], ◌∷◌, ◌++◌, arith, Bytes, All, ◌==◌, if◌then◌else◌,
}
use database_flashback.Value.{quote, escape_string}

abbrev pub backslash : ℕ
backslash = b'\\'

abbrev pub add : ℕ → Option (Bytes × Bytes) → Option (Bytes × Bytes)
add c none = none
add c (some (s, rest)) = some (c ∷ s, rest)

-- Behind the opening quote: the value, and what follows the closing quote.
unfoldable pub read_standard : Bytes → Option (Bytes × Bytes)
read_standard [] = none
read_standard (c ∷ []) = if c == quote then some ([], []) else none
read_standard (c ∷ d ∷ s) =
    let doubled = add quote (read_standard s) in
    let plain = add c (read_standard (d ∷ s)) in
    if c == quote then (if d == quote then doubled else some ([], d ∷ s)) else plain

-- What a backslash and a character stand for.
abbrev unescaped : ℕ → ℕ
unescaped d =
    if d == b'0'
    then 0
    else if d == b'b'
    then 8
    else if d == b't'
    then 9
    else if d == b'n'
    then 10
    else if d == b'r'
    then 13
    else if d == b'Z'
    then 26
    else d

unfoldable pub read_default : Bytes → Option (Bytes × Bytes)
read_default [] = none
read_default (c ∷ []) = if c == quote then some ([], []) else none
read_default (c ∷ d ∷ s) =
    let doubled = add quote (read_default s) in
    let escaped = add (unescaped d) (read_default s) in
    let plain = add c (read_default (d ∷ s)) in
    if c == quote
    then (if d == quote then doubled else some ([], d ∷ s))
    else if c == backslash
    then escaped
    else plain

-- What follows a value is not a quote.
abbrev pub Ends : Bytes → Type 0
Ends [] = Unit
Ends (c ∷ s) = c ≢ quote

standard_end : (rest : Bytes) → Ends rest → read_standard (quote ∷ rest) ≡ some ([], rest)
unfolding read_standard
standard_end [] h = refl
standard_end (c ∷ rest) h = ground arith

standard_plain :
    (c : ℕ) (s : Bytes) → (c == quote) ≡ false → read_standard (c ∷ s) ≡ add c (read_standard s)
unfolding read_standard
standard_plain c [] h = rw h
standard_plain c (d ∷ s) h = rw h

standard_doubled : (s : Bytes) → read_standard (quote ∷ quote ∷ s) ≡ add quote (read_standard s)
unfolding read_standard
standard_doubled s = refl

-- With backslashes as plain characters, the text that `FormatColumnValue` writes between its
-- quotes is read back as exactly the value, for every string, and ends at its closing quote, as
-- long as no quote follows it.
pub read_standard-escape_string :
    (s rest : Bytes)
    → Ends rest
    → read_standard (escape_string s ++ (quote ∷ rest)) ≡ some (s, rest)
unfolding escape_string
read_standard-escape_string [] rest h = standard_end rest h
read_standard-escape_string (c ∷ s) rest h = elim (Bool-cases (c == quote)) [
  | inl q ↦
      rw (q, escape_string)
        (standard_doubled (escape_string s ++ (quote ∷ rest))
          ∙ ap (add quote) (read_standard-escape_string s rest h)
          ∙ ap (λ k. some (k ∷ s, rest)) (sym ((==_iff c quote).0 q)))
  | inr p ↦
      rw (p, escape_string)
        (standard_plain c (escape_string s ++ (quote ∷ rest)) p
          ∙ ap (add c) (read_standard-escape_string s rest h))
]

default_end : (rest : Bytes) → Ends rest → read_default (quote ∷ rest) ≡ some ([], rest)
unfolding read_default
default_end [] h = refl
default_end (c ∷ rest) h = ground arith

default_plain :
    (c : ℕ) (s : Bytes)
    → (c == quote) ≡ false
    → c ≢ backslash
    → read_default (c ∷ s) ≡ add c (read_default s)
unfolding read_default
default_plain c [] h k = rw h
default_plain c (d ∷ s) h k = ground arith

default_doubled : (s : Bytes) → read_default (quote ∷ quote ∷ s) ≡ add quote (read_default s)
unfolding read_default
default_doubled s = refl

default_escaped :
    (d : ℕ) (s : Bytes) → read_default (backslash ∷ d ∷ s) ≡ add (unescaped d) (read_default s)
unfolding read_default
default_escaped d s = refl

abbrev pub add_all : Bytes → Option (Bytes × Bytes) → Option (Bytes × Bytes)
add_all [] o = o
add_all (c ∷ s) o = add c (add_all s o)

-- Text without a backslash, in front of anything.
read_default-append :
    (s rest : Bytes)
    → All (λ c. c ≢ backslash) s
    → read_default (escape_string s ++ rest) ≡ add_all s (read_default rest)
unfolding escape_string
read_default-append [] rest h = refl
read_default-append (c ∷ s) rest h = elim (Bool-cases (c == quote)) [
  | inl q ↦
      rw (q, escape_string)
        (default_doubled (escape_string s ++ rest)
          ∙ ap (add quote) (read_default-append s rest h.1)
          ∙ ap (λ k. add k (add_all s (read_default rest))) (sym ((==_iff c quote).0 q)))
  | inr p ↦
      rw (p, escape_string)
        (default_plain c (escape_string s ++ rest) p h.0
          ∙ ap (add c) (read_default-append s rest h.1))
]

add_all-some : (s rest : Bytes) → add_all s (some ([], rest)) ≡ some (s, rest)
add_all-some [] rest = refl
add_all-some (c ∷ s) rest = ap (add c) (add_all-some s rest)

-- In MySQL's default mode a value is read back exactly, and ends at its closing quote, provided that
-- it holds no backslash and no quote follows.
read_default-escape_string :
    (s rest : Bytes)
    → All (λ c. c ≢ backslash) s
    → Ends rest
    → read_default (escape_string s ++ (quote ∷ rest)) ≡ some (s, rest)
read_default-escape_string s rest h k =
    read_default-append s (quote ∷ rest) h
    ∙ ap (add_all s) (default_end rest k)
    ∙ add_all-some s rest

escape_string-append : (s t : Bytes) → escape_string (s ++ t) ≡ escape_string s ++ escape_string t
unfolding escape_string
escape_string-append [] t = refl
escape_string-append (c ∷ s) t = elim (Bool-cases (c == quote)) [
  | inl q ↦ rw (q, escape_string) (ap (λ r. quote ∷ quote ∷ r) (escape_string-append s t))
  | inr p ↦ rw (p, escape_string) (ap (λ r. c ∷ r) (escape_string-append s t))
]

-- In MySQL's default mode a value that ends in a backslash, with none before it, swallows its
-- closing quote: that quote becomes the last character of the value, and the literal goes on
-- through whatever the statement has behind it.
pub read_default_swallows :
    (s rest : Bytes)
    → All (λ c. c ≢ backslash) s
    → read_default (escape_string (s ++ (backslash ∷ [])) ++ (quote ∷ rest))
      ≡ add_all s (add quote (read_default rest))
unfolding escape_string
read_default_swallows s rest h =
    ap (λ t. read_default (t ++ (quote ∷ rest))) (escape_string-append s (backslash ∷ []))
    ∙ ap read_default (append_assoc (escape_string s) (backslash ∷ []) (quote ∷ rest))
    ∙ read_default-append s (backslash ∷ quote ∷ rest) h
    ∙ ap (add_all s) (default_escaped quote rest)
