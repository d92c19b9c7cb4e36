-- ===== src/Migration/Owners.antt =====
-- `parse_owners` of scripts/migrate_dynsec.py, with the part of Python's `csv` that it uses: the reader
-- for the default dialect. The limit on the size of a field is left out.
pub mod Coverage
use mqtt_broker_stack.Common.{
  ℕ, Text, codes, Dict, keys, has_key, put, Bool, true, false, ◌&&◌, ◌||◌, not, Option, none, some,
  List, [], ◌∷◌, ◌++◌, ◌==◌, nat_eq, is_empty, keep, file_lines, strip, sort_by, text_leb, one_of,
  if◌then◌else◌,
}
use mqtt_broker_stack.Migration.{
  Attempt, returned, failed, ◌>>=◌, ◌>>◌, fail_if, is_name, invalid_header, empty_owner_field,
  invalid_group, duplicate_owner, coverage_mismatch,
}

pub data Mode : Type 0 where
  start_record start_field in_field in_quoted quote_in_quoted after_newline : Mode

-- The fields of the record so far, and the text of the current one.
pub record Reader : Type 0 where
  pub mode : Mode
  pub field : Text
  pub fields : List Text

abbrev pub fresh : Reader
fresh = record { mode = Mode.start_record; field = []; fields = [] }

abbrev save_field : Reader → Mode → Reader
save_field r m = record { mode = m; field = []; fields = r.fields ++ r.field ∷ [] }

abbrev add_char : Reader → ℕ → Mode → Reader
add_char r c m = record r { field = r.field ++ c ∷ []; mode = m }

abbrev is_newline : ℕ → Bool
is_newline c = nat_eq c 10 || nat_eq c 13

start_of_field : Reader → ℕ → Reader
start_of_field r c =
    if is_newline c
    then save_field r Mode.after_newline
    else if nat_eq c b'"'
    then record r { mode = Mode.in_quoted }
    else if nat_eq c b','
    then save_field r Mode.start_field
    else add_char r c Mode.in_field

-- One character. Behind a line's end stands nothing but the other half of that end.
unfoldable pub read_char : Mode → Reader → ℕ → Reader
unfolding start_of_field
read_char Mode.start_record r c =
    if is_newline c then record r { mode = Mode.after_newline } else start_of_field r c
read_char Mode.start_field r c = start_of_field r c
read_char Mode.in_field r c =
    if is_newline c
    then save_field r Mode.after_newline
    else if nat_eq c b','
    then save_field r Mode.start_field
    else add_char r c Mode.in_field
read_char Mode.in_quoted r c =
    if nat_eq c b'"' then record r { mode = Mode.quote_in_quoted } else add_char r c Mode.in_quoted
read_char Mode.quote_in_quoted r c =
    if nat_eq c b'"'
    then add_char r c Mode.in_quoted
    else if nat_eq c b','
    then save_field r Mode.start_field
    else if is_newline c
    then save_field r Mode.after_newline
    else add_char r c Mode.in_field
read_char Mode.after_newline r c = r

-- The end of a line.
unfoldable pub read_end : Mode → Reader → Reader
read_end Mode.start_record r = r
read_end Mode.in_quoted r = r
read_end Mode.after_newline r = record r { mode = Mode.start_record }
read_end _ r = save_field r Mode.start_record

unfoldable pub read_chars : Reader → Text → Reader
unfolding read_char read_end
read_chars r [] = read_end r.mode r
read_chars r (c ∷ s) = read_chars (read_char r.mode r c) s

abbrev is_complete : Mode → Bool
is_complete Mode.start_record = true
is_complete _ = false

-- The last record, where the file ends inside a quoted field.
abbrev unfinished : Mode → Reader → List (List Text)
unfinished Mode.in_quoted r = (r.fields ++ r.field ∷ []) ∷ []
unfinished _ r = []

-- The records of `csv.reader`.
unfoldable pub csv_records : Reader → List Text → List (List Text)
unfolding read_chars
csv_records r [] = unfinished r.mode r
csv_records r (line ∷ lines) =
    let r' = read_chars r line in
    let rest = csv_records (if is_complete r'.mode then fresh else r') lines in
    if is_complete r'.mode then r'.fields ∷ rest else rest

pub record Owner : Type 0 where
  pub owner : Text
  pub group : Text

-- The columns of a row, the missing ones empty.
pub record Row : Type 0 where
  pub username : Text
  pub owner : Text
  pub group : Text

unfoldable pub row_of : List Text → Row
unfolding strip
row_of [] = record { username = []; owner = []; group = [] }
row_of (u ∷ []) = record { username = strip u; owner = []; group = [] }
row_of (u ∷ o ∷ []) = record { username = strip u; owner = strip o; group = [] }
row_of (u ∷ o ∷ g ∷ _) = record { username = strip u; owner = strip o; group = strip g }

unfoldable pub owner_row : Row → Dict Owner → Attempt (Dict Owner)
owner_row row owners = do
  fail_if (is_empty row.username || is_empty row.owner || is_empty row.group) empty_owner_field
  fail_if (not (is_name row.group)) (invalid_group row.group)
  fail_if (has_key row.username owners) (duplicate_owner row.username)
  returned (put row.username (record { owner = row.owner; group = row.group }) owners)

unfoldable pub owner_rows : List (List Text) → Dict Owner → Attempt (Dict Owner)
unfolding owner_row row_of
owner_rows [] owners = returned owners
owner_rows (fields ∷ rows) owners = do next ← owner_row (row_of fields) owners; owner_rows rows next

-- `sorted(set(xs) - set(ys))`, for lists that name each key once.
unfoldable pub sorted_difference : List Text → List Text → List Text
sorted_difference xs ys = sort_by text_leb (keep (λ x. not (one_of x ys)) xs)

unfoldable pub check_coverage : List Text → Dict Owner → Attempt (Dict Owner)
unfolding sorted_difference
check_coverage usernames owners =
    let missing = sorted_difference usernames (keys owners) in
    let extra = sorted_difference (keys owners) usernames in
    if is_empty missing && is_empty extra
    then returned owners
    else failed (coverage_mismatch missing extra)

abbrev is_header : List Text → Bool
is_header (u ∷ o ∷ g ∷ []) = u == codes "username" && o == codes "owner" && g == codes "group"
is_header _ = false

-- `csv.DictReader` takes the first record for the names, and skips the empty ones behind it.
unfoldable pub owners_of : List (List Text) → List Text → Attempt (Dict Owner)
unfolding owner_rows check_coverage
owners_of [] usernames = failed invalid_header
owners_of (header ∷ records) usernames = do
  fail_if (not (is_header header)) invalid_header
  owners ← owner_rows (keep (λ r. not (is_empty r)) records) []
  check_coverage usernames owners

unfoldable pub parse_owners : Text → List Text → Attempt (Dict Owner)
unfolding owners_of csv_records file_lines
parse_owners file usernames = owners_of (csv_records fresh (file_lines file)) usernames
