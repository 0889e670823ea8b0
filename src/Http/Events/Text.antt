-- ===== src/Http/Events/Text.antt =====
-- What a client reads from the text of a notification.
use devicekit.Prelude.{◌≡◌, true, not, Option, none, some, List, [], ◌∷◌, ◌==◌, all, if◌then◌else◌}
use devicekit.Prelude.Text.{Str, chars, is_empty}
use devicekit.Http.{strip_prefix}

-- A text in one line.
abbrev pub IsLine : Str → Type 0
IsLine s = all (λ c. not (c == b'\n')) s ≡ true

abbrev ending : Str
ending = b'\n' ∷ b'\n' ∷ []

abbrev pub blank : List Str
blank = [] ∷ [] ∷ []

-- A reader of server-sent events: the value behind a field's name, and, up to the blank line that
-- ends an event, its data; `none` for lines that it does not know.
abbrev in_front : Option Str → Option (List Str) → Option (List Str)
in_front none more = none
in_front (some value) none = none
in_front (some value) (some values) = some (value ∷ values)

unfoldable pub read_data : List Str → Option (List Str)
read_data [] = none
read_data ([] ∷ lines) = some []
read_data ((c ∷ line) ∷ lines) =
    in_front (strip_prefix (chars "data: ") (c ∷ line)) (read_data lines)

abbrev pub read_fields : Option Str → Option (List Str) → Option (Str × List Str)
read_fields none values = none
read_fields (some event) none = none
read_fields (some event) (some values) = some (event, values)

abbrev pub read_event : List Str → Option (Str × List Str)
read_event [] = none
read_event (line ∷ lines) = read_fields (strip_prefix (chars "event: ") line) (read_data lines)

abbrev pub not_blank : List Str → List Str
not_blank [] = []
not_blank (line ∷ lines) = if is_empty line then not_blank lines else line ∷ not_blank lines
