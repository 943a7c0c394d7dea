-- ===== src/Exports/RoundTrip.antt =====
-- Reading an export back.
use Prim.Native.Char.{code}
use Prim.Native.String.{◌++◌}
use Prim.Native.String.append
use text.Mathlib.TextLemmas.{append_assoc, append-nil}
use tms_api.Prelude.{
  ap, ◌≡◌, refl, sym, ◌∙◌, String, Bool, true, not, ◌||◌, some, List, [], ◌∷◌, map, All, ◌==◌,
  arith, inl, inr, Bool-cases,
}
use tms_api.Exports.{has_char, double_quotes, escape_csv, join_by}
use tms_api.Exports.Reader.{Rows, read, start, plain, quoted, closing, add_char, new_field, new_row}

-- No comma, quote or line break.
abbrev pub is_plain : String → Bool
is_plain text = not (has_char 44 text || has_char 34 text || has_char 10 text)

abbrev prepend : String → Rows → Rows
prepend String.[] r = r
prepend (String.◌∷◌ ch text) r = add_char ch (prepend text r)

read_plain : (v s : String) → is_plain v ≡ true → read plain (v ++ s) ≡ prepend v (read plain s)
unfolding read
read_plain String.[] s h = ap (read plain) (append.nil s)
read_plain (String.◌∷◌ ch v) s h = rw (append.cons ch v s) (ground (arith, h, read_plain v s))

read_quoted :
    (v s : String) → read quoted (double_quotes v ++ ("\"" ++ s)) ≡ prepend v (read closing s)
unfolding read
read_quoted String.[] s =
    ap (read quoted)
      (append.nil ("\"" ++ s) ∙ append.cons "\"" "" s ∙ ap (λ t. String.◌∷◌ "\"" t) (append.nil s))
read_quoted (String.◌∷◌ ch v) s = elim (Bool-cases (code ch == 34)) [
  | inl hit ↦
      rw
        (
          hit,
          append.cons ch (String.◌∷◌ ch (double_quotes v)) ("\"" ++ s),
          append.cons ch (double_quotes v) ("\"" ++ s),
        )
        (ground (arith, hit, read_quoted v s))
  | inr miss ↦
      rw (miss, append.cons ch (double_quotes v) ("\"" ++ s))
        (ground (arith, miss, read_quoted v s))
]

-- The end of a field: of the text, or a comma or a line break.
abbrev IsEnd : String → Type 0
IsEnd s = (read start s ≡ read plain s) × (read closing s ≡ read plain s)

IsEnd-nil : IsEnd ""
unfolding read
IsEnd-nil = (refl, refl)

quote-cons : (s : String) → "\"" ++ s ≡ String.◌∷◌ "\"" s
quote-cons s = append.cons "\"" "" s ∙ ap (λ t. String.◌∷◌ "\"" t) (append.nil s)

comma-cons : (s : String) → "," ++ s ≡ String.◌∷◌ "," s
comma-cons s = append.cons "," "" s ∙ ap (λ t. String.◌∷◌ "," t) (append.nil s)

break-cons : (s : String) → "\n" ++ s ≡ String.◌∷◌ "\n" s
break-cons s = append.cons "\n" "" s ∙ ap (λ t. String.◌∷◌ "\n" t) (append.nil s)

IsEnd-comma : (s : String) → IsEnd ("," ++ s)
unfolding read
IsEnd-comma s = rw (comma-cons s) (refl, refl)

IsEnd-break : (s : String) → IsEnd ("\n" ++ s)
unfolding read
IsEnd-break s = rw (break-cons s) (refl, refl)

read-comma : (s : String) → read plain ("," ++ s) ≡ new_field (read start s)
unfolding read
read-comma s = rw (comma-cons s) refl

read-break : (s : String) → read plain ("\n" ++ s) ≡ new_row (read start s)
unfolding read
read-break s = rw (break-cons s) refl

-- The text of a cell reads as the value, whatever follows.
abbrev Reads : String → String → Type 0
Reads text val = (s : String) → IsEnd s → read start (text ++ s) ≡ prepend val (read plain s)

pub plain-Reads : (v : String) → is_plain v ≡ true → Reads v v
unfolding read
plain-Reads String.[] h s end = rw (append.nil s) end.0
plain-Reads (String.◌∷◌ ch v) h s end = rw (append.cons ch v s) (ground (arith, h, read_plain v s))

pub escape_csv-Reads : (v : String) → Reads (escape_csv v) v
unfolding escape_csv read
escape_csv-Reads v s end = elim (Bool-cases (has_char 44 v || has_char 34 v || has_char 10 v)) [
  | inr none_of ↦ rw none_of (plain-Reads v (rw none_of refl) s end)
  | inl some_of ↦ rw some_of (
      ap (read start) (
        append_assoc "\"" (double_quotes v ++ "\"") s
        ∙ ap (λ t. "\"" ++ t) (append_assoc (double_quotes v) "\"" s)
        ∙ quote-cons _)
      ∙ read_quoted v s
      ∙ ap (prepend v) end.1)
]

-- Cells, as pairs of a text and its value.
abbrev Cells : Type 0
Cells = List (String × String)

abbrev pub AllRead : Cells → Type 0
AllRead cells = All (λ c. Reads c.0 c.1) cells

abbrev texts : Cells → List String
texts cells = map (λ c. c.0) cells

abbrev values : Cells → List String
values cells = map (λ c. c.1) cells

abbrev prepend_row : List String → Rows → Rows
prepend_row [] r = r
prepend_row (v ∷ []) r = prepend v r
prepend_row (v ∷ w ∷ vs) r = prepend v (new_field (prepend_row (w ∷ vs) r))

-- A line of cells.
row-Reads :
    (c : String × String) (cells : Cells)
    → AllRead (c ∷ cells)
    → (s : String) → IsEnd s
    → read start (join_by "," (texts (c ∷ cells)) ++ s)
      ≡ prepend_row (values (c ∷ cells)) (read plain s)
row-Reads c [] h s end = h.0 s end
row-Reads c (d ∷ cells) h s end =
    let rest = join_by "," (texts (d ∷ cells)) in
    ap (read start)
      (append_assoc c.0 ("," ++ rest) s ∙ ap (λ t. c.0 ++ t) (append_assoc "," rest s))
    ∙ h.0 ("," ++ (rest ++ s)) (IsEnd-comma (rest ++ s))
    ∙ ap (prepend c.1) (read-comma (rest ++ s) ∙ ap new_field (row-Reads d cells h.1 s end))

prepend-open :
    (v : String) (fields : List String) (rows : List (List String))
    → prepend v (some (("" ∷ fields) ∷ rows)) ≡ some ((v ∷ fields) ∷ rows)
prepend-open String.[] fields rows = refl
prepend-open (String.◌∷◌ ch v) fields rows = rw (prepend-open v fields rows) refl

prepend_row-open :
    (v : String) (vs : List String) (rows : List (List String))
    → prepend_row (v ∷ vs) (some (("" ∷ []) ∷ rows)) ≡ some ((v ∷ vs) ∷ rows)
prepend_row-open v [] rows = prepend-open v [] rows
prepend_row-open v (w ∷ vs) rows = rw (prepend_row-open w vs rows) (prepend-open v (w ∷ vs) rows)

-- A table: its rows have a first cell and others.
abbrev pub Table : Type 0
Table = List ((String × String) × Cells)

abbrev pub AllRowsRead : Table → Type 0
AllRowsRead table = All (λ r. AllRead (r.0 ∷ r.1)) table

abbrev pub lines : Table → List String
lines table = map (λ r. join_by "," (texts (r.0 ∷ r.1))) table

abbrev pub contents : Table → List (List String)
contents table = map (λ r. values (r.0 ∷ r.1)) table

pub table-Reads :
    (r : (String × String) × Cells) (table : Table)
    → AllRowsRead (r ∷ table)
    → read start (join_by "\n" (lines (r ∷ table))) ≡ some (contents (r ∷ table))
unfolding read
table-Reads r [] h =
    ap (read start) (sym (append-nil (join_by "," (texts (r.0 ∷ r.1)))))
    ∙ row-Reads r.0 r.1 h.0 "" IsEnd-nil
    ∙ prepend_row-open r.0.1 (values r.1) []
table-Reads r (q ∷ table) h =
    let rest = join_by "\n" (lines (q ∷ table)) in
    row-Reads r.0 r.1 h.0 ("\n" ++ rest) (IsEnd-break rest)
    ∙ ap (prepend_row (values (r.0 ∷ r.1))) (read-break rest ∙ ap new_row (table-Reads q table h.1))
    ∙ prepend_row-open r.0.1 (values r.1) (contents (q ∷ table))
