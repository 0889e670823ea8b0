-- ===== src/Http/Headers.antt =====
-- `HashMap<String, String>`, in which device-agent/src/http_server/ keeps headers, as an association
-- list: each operation keeps one value for a name.
pub mod Laws
use devicekit.Prelude.{ℕ, suc, ◌+◌, Option, none, some, List, [], ◌∷◌, if◌then◌else◌}
use devicekit.Prelude.Text.{Str, str_eq}

abbrev pub Headers : Type 0
Headers = List (Str × Str)

unfoldable pub get : Str → Headers → Option Str
get key [] = none
get key ((k, v) ∷ headers) = let rest = get key headers in if str_eq k key then some v else rest

unfoldable pub insert : Str → Str → Headers → Headers
insert key value [] = (key, value) ∷ []
insert key value ((k, v) ∷ headers) =
    let rest = insert key value headers in
    if str_eq k key then (key, value) ∷ headers else (k, v) ∷ rest

unfoldable pub remove : Str → Headers → Headers
remove key [] = []
remove key ((k, v) ∷ headers) =
    let rest = remove key headers in if str_eq k key then rest else (k, v) ∷ rest
