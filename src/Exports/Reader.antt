-- ===== src/Exports/Reader.antt =====
-- A reader of CSV texts, as RFC 4180 describes them with `\n` as the line break: what the export is
-- to be understood by. A field is plain, or quoted with its quotes doubled.
use Prim.Native.Char.{code}
use tms_api.Prelude.{String, Option, none, some, List, [], ◌∷◌, ◌==◌, if◌then◌else◌}

pub data Mode : Type 0 where
  start plain quoted closing : Mode

-- The rows read so far, of which the first field is still open.
abbrev pub Rows : Type 0
Rows = Option (List (List String))

abbrev pub add_char : Prim.Native.Char.Char → Rows → Rows
add_char ch none = none
add_char ch (some []) = none
add_char ch (some ([] ∷ rows)) = none
add_char ch (some ((field ∷ fields) ∷ rows)) = some ((String.◌∷◌ ch field ∷ fields) ∷ rows)

abbrev pub new_field : Rows → Rows
new_field none = none
new_field (some []) = none
new_field (some (row ∷ rows)) = some (("" ∷ row) ∷ rows)

abbrev pub new_row : Rows → Rows
new_row none = none
new_row (some rows) = some (("" ∷ []) ∷ rows)

unfoldable pub read : Mode → String → Rows
read start String.[] = some (("" ∷ []) ∷ [])
read plain String.[] = some (("" ∷ []) ∷ [])
read quoted String.[] = none
read closing String.[] = some (("" ∷ []) ∷ [])
read start (String.◌∷◌ ch text) =
    let as_quoted = read quoted text in
    let as_field = read start text in
    let as_plain = read plain text in
    if code ch == 34
    then as_quoted
    else if code ch == 44
    then new_field as_field
    else if code ch == 10
    then new_row as_field
    else add_char ch as_plain
read plain (String.◌∷◌ ch text) =
    let as_field = read start text in
    let as_plain = read plain text in
    if code ch == 34
    then none
    else if code ch == 44
    then new_field as_field
    else if code ch == 10
    then new_row as_field
    else add_char ch as_plain
read quoted (String.◌∷◌ ch text) =
    let as_closing = read closing text in
    let as_quoted = read quoted text in if code ch == 34 then as_closing else add_char ch as_quoted
read closing (String.◌∷◌ ch text) =
    let as_field = read start text in
    let as_quoted = read quoted text in
    if code ch == 34
    then add_char ch as_quoted
    else if code ch == 44
    then new_field as_field
    else if code ch == 10
    then new_row as_field
    else none
