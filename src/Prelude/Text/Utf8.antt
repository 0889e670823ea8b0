-- ===== src/Prelude/Text/Utf8.antt =====
-- `String::from_utf8`: the decoding of UTF-8, and that it undoes `as_bytes`.
use mathlib.Core.Option
use devicekit.Prelude.Tests.{ltb, leb, ◌==◌, if◌then◌else◌}
use devicekit.Prelude.Lists.{length, length-append, All}
use devicekit.Prelude.Text.{Str, utf8_char, as_bytes}
use Prim.Native.Nat.{ℕ, zero, suc, ◌+◌, ◌-◌, ◌*◌, ◌≤◌, ◌<◌}
use mathlib.Core.Path.{◌≡◌, refl, ap, ◌∙◌}
use mathlib.Core.Bool.{Bool, ◌&&◌}
use mathlib.Core.Logic.{◌⊎◌}
use mathlib.Core.Option.{Option, none, some}
use mathlib.Core.List.{List, [], ◌∷◌, ◌++◌}
use native.Mathlib.Omega.{arith}

abbrev in_range : ℕ → ℕ → ℕ → Bool
in_range lo hi b = leb lo b && leb b hi

abbrev is_tail : ℕ → Bool
is_tail b = in_range 0x80 0xbf b

abbrev two : ℕ → List ℕ → Option (ℕ × List ℕ)
two b (c ∷ rest) = if is_tail c then some ((b - 0xc0) * 64 + (c - 0x80), rest) else none
two b [] = none

abbrev three : ℕ → ℕ → ℕ → List ℕ → Option (ℕ × List ℕ)
three b lo hi (c ∷ d ∷ rest) =
    if in_range lo hi c && is_tail d
    then some ((b - 0xe0) * 4096 + (c - 0x80) * 64 + (d - 0x80), rest)
    else none
three b lo hi _ = none

abbrev four : ℕ → ℕ → ℕ → List ℕ → Option (ℕ × List ℕ)
four b lo hi (c ∷ d ∷ e ∷ rest) =
    if in_range lo hi c && is_tail d && is_tail e
    then some ((b - 0xf0) * 262144 + (c - 0x80) * 4096 + (d - 0x80) * 64 + (e - 0x80), rest)
    else none
four b lo hi _ = none

-- The first character of the bytes, by the table of well-formed sequences in the Unicode standard.
next_char : List ℕ → Option (ℕ × List ℕ)
next_char [] = none
next_char (b ∷ rest) =
    if ltb b 0x80
    then some (b, rest)
    else if in_range 0xc2 0xdf b
    then two b rest
    else if b == 0xe0
    then three b 0xa0 0xbf rest
    else if b == 0xed
    then three b 0x80 0x9f rest
    else if in_range 0xe1 0xef b
    then three b 0x80 0xbf rest
    else if b == 0xf0
    then four b 0x90 0xbf rest
    else if in_range 0xf1 0xf3 b
    then four b 0x80 0xbf rest
    else if b == 0xf4
    then four b 0x80 0x8f rest
    else none

decode_loop : ℕ → List ℕ → Option Str
decode_loop fuel [] = some []
decode_loop zero (b ∷ bs) = none
decode_loop (suc fuel) (b ∷ bs) = elim (next_char (b ∷ bs)) [
  | none ↦ none
  | some (c, rest) ↦ Option.map (λ s. c ∷ s) (decode_loop fuel rest)
]

-- A character takes a byte at least.
unfoldable pub from_utf8 : List ℕ → Option Str
unfolding decode_loop next_char
from_utf8 bs = decode_loop (length bs) bs

-- A Unicode scalar value.
abbrev pub IsScalar : ℕ → Type 0
IsScalar c = (c < 0xd800) ⊎ ((0xe000 ≤ c) × (c < 0x11_0000))

next_char-utf8_char :
    (c : ℕ) (rest : List ℕ) → IsScalar c → next_char (utf8_char c ++ rest) ≡ some (c, rest)
unfolding next_char
next_char-utf8_char c rest h = ground arith

decode_loop_step :
    (fuel : ℕ) (bs : List ℕ) (c : ℕ) (rest : List ℕ)
    → next_char bs ≡ some (c, rest)
    → decode_loop (suc fuel) bs ≡ Option.map (λ s. c ∷ s) (decode_loop fuel rest)
unfolding decode_loop
decode_loop_step fuel [] c rest e = unfold next_char in cc
decode_loop_step fuel (b ∷ bs) c rest e = rw (e, decode_loop)

pub utf8_char-pos : (c : ℕ) → 0 < length (utf8_char c)
utf8_char-pos c = ground arith

decode_loop-as_bytes :
    (fuel : ℕ) (s : Str)
    → All IsScalar s
    → length (as_bytes s) ≤ fuel
    → decode_loop fuel (as_bytes s) ≡ some s
unfolding as_bytes
decode_loop-as_bytes fuel [] w h = unfold decode_loop in refl
decode_loop-as_bytes zero (c ∷ s) w h =
    absurd (omega (arith, utf8_char-pos c, length-append (utf8_char c) (as_bytes s)))
decode_loop-as_bytes (suc fuel) (c ∷ s) (wc, w) h =
    decode_loop_step fuel _ c (as_bytes s) (next_char-utf8_char c (as_bytes s) wc)
    ∙ ap (Option.map (λ t. c ∷ t)) (
        decode_loop-as_bytes fuel s w
          (omega (arith, utf8_char-pos c, length-append (utf8_char c) (as_bytes s))))

pub from_utf8-as_bytes : (s : Str) → All IsScalar s → from_utf8 (as_bytes s) ≡ some s
unfolding from_utf8
from_utf8-as_bytes s w = decode_loop-as_bytes (length (as_bytes s)) s w (omega arith)
