-- ===== src/Http/Request/Words.antt =====
-- A request line that is written to the server is parsed into its method and path.
use devicekit.Prelude.{◌<◌, ◌≡◌, refl, ap, ◌∙◌, false, some, List, [], ◌∷◌, ◌++◌, All, arith}
use devicekit.Prelude.Text.{
  Str, chars, as_bytes, is_empty, is_whitespace, fields, not_empty, split_whitespace,
}
use devicekit.Prelude.Result.{ok}
use devicekit.Outside.{Outside}
use devicekit.Protocol.{Bytes}
use devicekit.Http.{Method, get, head, post, put, delete}
use devicekit.Http.Response.{crlf}
use devicekit.Http.Lines.{Fill, source, read_line}
use devicekit.Http.Lines.Written.{IsWritten, read_line-as_bytes}
use devicekit.Http.Request.{method_of, request_line, parse_request_line}

abbrev pub method_text : Method → Str
method_text get = chars "GET"
method_text head = chars "HEAD"
method_text post = chars "POST"
method_text put = chars "PUT"
method_text delete = chars "DELETE"

abbrev pub line_text : Method → Str → Str
line_text method path = method_text method ++ (b' ' ∷ (path ++ (b' ' ∷ chars "HTTP/1.1")))

abbrev pub IsWord : Str → Type 0
IsWord word = All (λ c. is_whitespace c ≡ false) word

fields-word : (word rest : Str) → IsWord word → fields (word ++ (b' ' ∷ rest)) ≡ word ∷ fields rest
unfolding fields
fields-word [] rest h = refl
fields-word (c ∷ word) rest (n, h) = rw (n, fields-word word rest h) refl

method_text-IsWord : (method : Method) → IsWord (method_text method)
method_text-IsWord get = (refl, (refl, (refl, tt)))
method_text-IsWord head = (refl, (refl, (refl, (refl, tt))))
method_text-IsWord post = (refl, (refl, (refl, (refl, tt))))
method_text-IsWord put = (refl, (refl, (refl, tt)))
method_text-IsWord delete = (refl, (refl, (refl, (refl, (refl, (refl, tt))))))

method_of-text : (method : Method) → method_of (method_text method) ≡ ok method
unfolding method_of
method_of-text get = refl
method_of-text head = refl
method_of-text post = refl
method_of-text put = refl
method_of-text delete = refl

not_empty-text :
    (method : Method) (words : List Str)
    → not_empty (method_text method ∷ words) ≡ method_text method ∷ not_empty words
not_empty-text get words = refl
not_empty-text head words = refl
not_empty-text post words = refl
not_empty-text put words = refl
not_empty-text delete words = refl

version_fields : fields (chars "HTTP/1.1") ≡ chars "HTTP/1.1" ∷ []
unfolding fields
version_fields = refl

split_whitespace-line :
    (method : Method) (path : Str)
    → IsWord (b'/' ∷ path)
    → split_whitespace (line_text method (b'/' ∷ path))
      ≡ method_text method ∷ (b'/' ∷ path) ∷ chars "HTTP/1.1" ∷ []
unfolding split_whitespace
split_whitespace-line method path h =
    ap not_empty (
      fields-word (method_text method) _ (method_text-IsWord method)
      ∙ ap (λ r. method_text method ∷ r) (fields-word (b'/' ∷ path) (chars "HTTP/1.1") h)
      ∙ ap (λ r. method_text method ∷ (b'/' ∷ path) ∷ r) version_fields)
    ∙ not_empty-text method _

-- Letters in upper case, digits and signs below them stay what they are.
abbrev pub Keeps : (Str → Str) → Type 0
Keeps upper = (s : Str) → All (λ c. c < 97) s → upper s ≡ s

method_text-small : (method : Method) → All (λ c. c < 97) (method_text method)
method_text-small get = omega arith
method_text-small head = omega arith
method_text-small post = omega arith
method_text-small put = omega arith
method_text-small delete = omega arith

read_line-text :
    (s : Str) (rest : Bytes) (fills : List Fill)
    → is_empty s ≡ false
    → IsWritten s
    → read_line (source (as_bytes s ++ (crlf ++ rest)) fills) ≡ (source rest fills, ok (some s))
read_line-text [] rest fills n h = absurd (ground arith)
read_line-text (c ∷ s) rest fills n h = read_line-as_bytes c s rest fills h

line_text-full : (method : Method) (path : Str) → is_empty (line_text method path) ≡ false
line_text-full get path = refl
line_text-full head path = refl
line_text-full post path = refl
line_text-full put path = refl
line_text-full delete path = refl

module _ (o : Outside) where
  request_line-text :
      (method : Method) (path : Str)
      → Keeps o.to_uppercase
      → request_line o (method_text method ∷ (b'/' ∷ path) ∷ chars "HTTP/1.1" ∷ [])
        ≡ ok (method, b'/' ∷ path)
  unfolding request_line
  request_line-text method path keeps =
      rw
        (
          keeps (chars "HTTP/1.1") (omega arith),
          keeps (method_text method) (method_text-small method),
          method_of-text method,
        )
        refl

  pub parse_request_line-text :
      (method : Method) (path : Str) (rest : Bytes) (fills : List Fill)
      → Keeps o.to_uppercase
      → IsWord (b'/' ∷ path)
      → IsWritten (line_text method (b'/' ∷ path))
      → parse_request_line o
          (source (as_bytes (line_text method (b'/' ∷ path)) ++ (crlf ++ rest)) fills)
        ≡ (source rest fills, ok (method, b'/' ∷ path))
  unfolding parse_request_line
  parse_request_line-text method path rest fills keeps word written =
      rw
        (
          read_line-text (line_text method (b'/' ∷ path)) rest fills
              (line_text-full method (b'/' ∷ path)) written,
          split_whitespace-line method path word,
          request_line-text method path keeps,
        )
        refl
