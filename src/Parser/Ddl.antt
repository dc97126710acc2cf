-- ===== src/Parser/Ddl.antt =====
-- internal/parser/parser.go: the recognition of DDL statements. A statement is read as ASCII text:
-- upper case and white space of other characters are left out.
use database_flashback.Base.{
  ℕ, suc, ◌+◌, ◌-◌, Bool, true, false, ◌&&◌, ◌||◌, Option, none, some, List, [], ◌∷◌, ◌++◌, Bytes,
  text, length, drop, leb, ◌==◌, if◌then◌else◌,
}
use mathlib.Core.List.{reverse}

-- `strings.ToUpper`, `strings.TrimSpace`, `strings.HasPrefix`, `strings.Index`, `strings.Contains`.
unfoldable pub to_upper : Bytes → Bytes
to_upper [] = []
to_upper (c ∷ s) = (if leb b'a' c && leb c b'z' then c - 32 else c) ∷ to_upper s

abbrev is_space : ℕ → Bool
is_space c = leb 9 c && leb c 13 || c == 32

unfoldable trim_left : Bytes → Bytes
trim_left [] = []
trim_left (c ∷ s) = let rest = trim_left s in if is_space c then rest else c ∷ s

unfoldable pub trim_space : Bytes → Bytes
unfolding trim_left
trim_space s = reverse (trim_left (reverse (trim_left s)))

abbrev pub has_prefix : Bytes → Bytes → Bool
has_prefix s [] = true
has_prefix [] (c ∷ p) = false
has_prefix (d ∷ s) (c ∷ p) = d == c && has_prefix s p

abbrev shifted : Option ℕ → Option ℕ
shifted none = none
shifted (some n) = some (suc n)

unfoldable pub index_of : Bytes → Bytes → Option ℕ
index_of [] p = if has_prefix [] p then some 0 else none
index_of (c ∷ s) p =
    let later = shifted (index_of s p) in if has_prefix (c ∷ s) p then some 0 else later

abbrev is_found : Option ℕ → Bool
is_found none = false
is_found (some n) = true

unfoldable pub contains : Bytes → Bytes → Bool
unfolding index_of
contains s p = is_found (index_of s p)

unfoldable ddl_keywords : List Bytes
ddl_keywords =
    text "ALTER " ∷ text "CREATE " ∷ text "DROP " ∷ text "TRUNCATE " ∷ text "RENAME " ∷ []

pub data ObjectType : Type 0 where
  table_object database_object no_object : ObjectType

unfoldable ddl_prefixes : List (Bytes × ObjectType)
ddl_prefixes =
    (text "ALTER TABLE ", table_object)
    ∷ (text "ALTER DATABASE ", database_object)
    ∷ (text "ALTER SCHEMA ", database_object)
    ∷ (text "CREATE TABLE ", table_object)
    ∷ (text "CREATE DATABASE ", database_object)
    ∷ (text "CREATE SCHEMA ", database_object)
    ∷ (text "DROP TABLE ", table_object)
    ∷ (text "DROP DATABASE ", database_object)
    ∷ (text "DROP SCHEMA ", database_object)
    ∷ (text "TRUNCATE TABLE ", table_object)
    ∷ (text "TRUNCATE ", table_object)
    ∷ (text "RENAME TABLE ", table_object)
    ∷ (text "ALTER ", table_object)
    ∷ (text "CREATE ", table_object)
    ∷ (text "DROP ", table_object)
    ∷ []

abbrev any_prefix : Bytes → List Bytes → Bool
any_prefix s [] = false
any_prefix s (k ∷ ks) = has_prefix s k || any_prefix s ks

unfoldable pub is_ddl : Bytes → Bool
unfolding to_upper trim_space ddl_keywords
is_ddl sql = any_prefix (to_upper (trim_space sql)) ddl_keywords

-- The first entry whose keyword the statement contains.
unfoldable pub match_prefix : Bytes → List (Bytes × ObjectType) → Option (Bytes × ObjectType)
unfolding contains
match_prefix s [] = none
match_prefix s (entry ∷ entries) =
    let later = match_prefix s entries in if contains s entry.0 then some entry else later

-- Where the loop of `extractIdentifier` stands: outside of backticks, inside, or behind a backtick that
-- closes them unless another one follows.
pub data Mode : Type 0 where
  outside inside behind : Mode

abbrev is_stop : ℕ → Bool
is_stop c = c == 32 || (c == 9 || (c == b',' || (c == b'(' || (c == b')' || c == b';'))))

abbrev next_mode : Mode → ℕ → Mode
next_mode outside c = if c == b'`' then inside else outside
next_mode inside c = if c == b'`' then behind else inside
next_mode behind c = if c == b'`' then inside else outside

abbrev stops : Mode → ℕ → Bool
stops outside c = is_stop c
stops inside c = false
stops behind c = is_stop c

abbrev emits : Mode → ℕ → Bytes
emits outside c = if c == b'`' then [] else c ∷ []
emits inside c = if c == b'`' then [] else c ∷ []
emits behind c = c ∷ []

unfoldable identifier : Mode → Bytes → Bytes
identifier mode [] = []
identifier mode (c ∷ s) =
    let rest = identifier (next_mode mode c) s in if stops mode c then [] else emits mode c ++ rest

unfoldable extract_identifier : Bytes → Bytes
unfolding trim_space identifier
extract_identifier s = identifier outside (trim_space s)

-- The qualified name: a table without a dot in its name gets the current database.
unfoldable qualify : ObjectType → Bytes → Bytes → Bytes
unfolding contains
qualify type [] name = name
qualify table_object (d ∷ database) name =
    if contains name (text ".") then name else (d ∷ database) ++ (text "." ++ name)
qualify database_object (d ∷ database) name = name
qualify no_object (d ∷ database) name = name

abbrev named : ObjectType → Bytes → Bytes → ObjectType × Bytes
named type database [] = (type, [])
named type database (c ∷ name) = (type, qualify type database (c ∷ name))

abbrev named_after : Bytes → Bytes → Bytes → ObjectType → Option ℕ → ObjectType × Bytes
named_after sql database keyword type none = (type, [])
named_after sql database keyword type (some idx) =
    named type database (extract_identifier (trim_space (drop (idx + length keyword) sql)))

abbrev info_of : Bytes → Bytes → Option (Bytes × ObjectType) → ObjectType × Bytes
info_of sql database none = (no_object, [])
info_of sql database (some entry) =
    named_after sql database entry.0 entry.1 (index_of (to_upper sql) entry.0)

-- `extractDDLInfo`.
unfoldable pub extract_ddl_info : Bytes → Bytes → ObjectType × Bytes
unfolding match_prefix ddl_prefixes to_upper trim_space extract_identifier qualify
extract_ddl_info sql database =
    info_of sql database (match_prefix (to_upper (trim_space sql)) ddl_prefixes)
