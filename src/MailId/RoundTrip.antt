-- ===== src/MailId/RoundTrip.antt =====
-- A mail id that was read is written in its canonical form, and read again as the same number.
use devicekit.Prelude.{
  ℕ, zero, suc, ◌+◌, ◌-◌, take-append-drop, drop-drop, ◌≤◌, ◌≡◌, refl, ap, ap₂, sym, ◌∙◌, Bool,
  true, ◌||◌, [], ◌∷◌, ◌++◌, ◌==◌, all, length, take, drop, if◌then◌else◌, arith,
}
use devicekit.Prelude.Text.{Str, is_ascii_hexdigit, trim_start, trim_end, trim, to_ascii_lowercase}
use devicekit.Prelude.Result.{ok, err}
use devicekit.MailId.{
  remove_dashes, from_hex, is_uuidv7, invalid_pulse_id, cleaned, uuidv7_u128, hex, slice,
  uuidv7_str,
}
use devicekit.MailId.Digits.{is_lower_hexdigit, hex-from_hex, length-drop}
use devicekit.MailId.Bounds.{accepted, is_uuidv7_facts}

-- The groups of a mail id's text, with dashes between them.
abbrev pub dashed : Str → Str
dashed h =
    slice 0 8 h
    ++ (b'-'
        ∷ (slice 8 12 h
            ++ (b'-' ∷ (slice 12 16 h ++ (b'-' ∷ (slice 16 20 h ++ (b'-' ∷ slice 20 32 h)))))))

lowered :
    (s : Str)
    → all is_ascii_hexdigit (to_ascii_lowercase s) ≡ true
    → all is_lower_hexdigit (to_ascii_lowercase s) ≡ true
lowered [] h = refl
lowered (c ∷ s) h = ground (arith, lowered s)

-- The characters of a mail id's text: lower-case digits and dashes.
abbrev is_plain : ℕ → Bool
is_plain c = is_lower_hexdigit c || c == b'-'

all-append :
    (s t : Str) → all is_plain s ≡ true → all is_plain t ≡ true → all is_plain (s ++ t) ≡ true
all-append [] t h k = k
all-append (c ∷ s) t h k = ground (arith, all-append s t)

plain_digits : (s : Str) → all is_lower_hexdigit s ≡ true → all is_plain s ≡ true
plain_digits [] h = refl
plain_digits (c ∷ s) h = ground (arith, plain_digits s)

all-take :
    (n : ℕ) (s : Str) → all is_lower_hexdigit s ≡ true → all is_lower_hexdigit (take n s) ≡ true
all-take zero s h = refl
all-take (suc n) [] h = refl
all-take (suc n) (c ∷ s) h = ground (arith, all-take n s)

all-drop :
    (n : ℕ) (s : Str) → all is_lower_hexdigit s ≡ true → all is_lower_hexdigit (drop n s) ≡ true
all-drop zero s h = h
all-drop (suc n) [] h = refl
all-drop (suc n) (c ∷ s) h = all-drop n s (ground arith)

plain-trim_start : (s : Str) → all is_plain s ≡ true → trim_start s ≡ s
unfolding trim_start
plain-trim_start [] h = refl
plain-trim_start (c ∷ s) h = ground arith

plain-trim_end : (s : Str) → all is_plain s ≡ true → trim_end s ≡ s
unfolding trim_end
plain-trim_end [] h = refl
plain-trim_end (c ∷ []) h = ground arith
plain-trim_end (c ∷ d ∷ s) h = rw (plain-trim_end (d ∷ s) (ground arith)) refl

plain-trim : (s : Str) → all is_plain s ≡ true → trim s ≡ s
unfolding trim
plain-trim s h = ap trim_end (plain-trim_start s h) ∙ plain-trim_end s h

remove_dashes-append : (s t : Str) → remove_dashes (s ++ t) ≡ remove_dashes s ++ remove_dashes t
unfolding remove_dashes
remove_dashes-append [] t = refl
remove_dashes-append (c ∷ s) t = ground (arith, remove_dashes-append s t)

remove_dashes_none : (s : Str) → all is_lower_hexdigit s ≡ true → remove_dashes s ≡ s
unfolding remove_dashes
remove_dashes_none [] h = refl
remove_dashes_none (c ∷ s) h = ground (arith, remove_dashes_none s)

-- A group and a dash behind it.
remove_dashes_group :
    (s t : Str)
    → all is_lower_hexdigit s ≡ true
    → remove_dashes (s ++ (b'-' ∷ t)) ≡ s ++ remove_dashes t
remove_dashes_group s t h =
    remove_dashes-append s (b'-' ∷ t)
    ∙ ap₂ (λ (x : Str) y. x ++ y) (remove_dashes_none s h) (front_dash t)
  where
    front_dash : (u : Str) → remove_dashes (b'-' ∷ u) ≡ remove_dashes u
    front_dash u = unfold remove_dashes in refl

lower_again : (s : Str) → all is_lower_hexdigit s ≡ true → to_ascii_lowercase s ≡ s
lower_again [] h = refl
lower_again (c ∷ s) h = ground (arith, lower_again s)

-- A group, and what is behind it.
group : (n i : ℕ) (h : Str) → take n (drop i h) ++ drop (i + n) h ≡ drop i h
group n i h =
    ap (λ t. take n (drop i h) ++ t) (sym (drop-drop n i h)) ∙ take-append-drop n (drop i h)

take_all : (n : ℕ) (s : Str) → length s ≤ n → take n s ≡ s
take_all zero [] h = refl
take_all zero (c ∷ s) h = absurd (omega arith)
take_all (suc n) [] h = refl
take_all (suc n) (c ∷ s) h = ap (λ t. c ∷ t) (take_all n s (omega arith))

module _ (h : Str) (lower : all is_lower_hexdigit h ≡ true) where
  slice_lower : (i j : ℕ) → all is_lower_hexdigit (slice i j h) ≡ true
  slice_lower i j = all-take (j - i) (drop i h) (all-drop i h lower)

  dashed-plain : all is_plain (dashed h) ≡ true
  dashed-plain = all-append (slice 0 8 h) _ (plain_digits (slice 0 8 h) (slice_lower 0 8)) (
      all-append (slice 8 12 h) _ (plain_digits (slice 8 12 h) (slice_lower 8 12)) (
        all-append (slice 12 16 h) _ (plain_digits (slice 12 16 h) (slice_lower 12 16)) (
          all-append (slice 16 20 h) _ (plain_digits (slice 16 20 h) (slice_lower 16 20))
            (plain_digits (slice 20 32 h) (slice_lower 20 32)))))

  undashed :
      remove_dashes (dashed h)
      ≡ slice 0 8 h ++ (slice 8 12 h ++ (slice 12 16 h ++ (slice 16 20 h ++ slice 20 32 h)))
  undashed =
      remove_dashes_group (slice 0 8 h) _ (slice_lower 0 8)
      ∙ ap (λ t. slice 0 8 h ++ t)
          (remove_dashes_group (slice 8 12 h) _ (slice_lower 8 12)
            ∙ ap (λ t. slice 8 12 h ++ t)
                (remove_dashes_group (slice 12 16 h) _ (slice_lower 12 16)
                  ∙ ap (λ t. slice 12 16 h ++ t)
                      (remove_dashes_group (slice 16 20 h) _ (slice_lower 16 20)
                        ∙ ap (λ t. slice 16 20 h ++ t)
                            (remove_dashes_none (slice 20 32 h) (slice_lower 20 32)))))

  regrouped :
      length h ≡ 32
      → slice 0 8 h ++ (slice 8 12 h ++ (slice 12 16 h ++ (slice 16 20 h ++ slice 20 32 h))) ≡ h
  regrouped size =
      ap (λ t. slice 0 8 h ++ (slice 8 12 h ++ (slice 12 16 h ++ (slice 16 20 h ++ t))))
        (take_all 12 (drop 20 h) (omega (arith, length-drop 20 h)))
      ∙ ap (λ t. slice 0 8 h ++ (slice 8 12 h ++ (slice 12 16 h ++ t))) (group 4 16 h)
      ∙ ap (λ t. slice 0 8 h ++ (slice 8 12 h ++ t)) (group 4 12 h)
      ∙ ap (λ t. slice 0 8 h ++ t) (group 4 8 h)
      ∙ group 8 0 h

  cleaned-dashed : length h ≡ 32 → cleaned (dashed h) ≡ h
  cleaned-dashed size =
      ap (λ t. to_ascii_lowercase (remove_dashes t)) (plain-trim (dashed h) dashed-plain)
      ∙ ap to_ascii_lowercase (undashed ∙ regrouped size)
      ∙ lower_again h lower

printed : (h : Str) → all is_lower_hexdigit h ≡ true → hex (length h + 0) (from_hex 0 h) ≡ h
unfolding hex
printed h lower = hex-from_hex h 0 0 lower

reread :
    (h : Str) (v : ℕ)
    → all is_lower_hexdigit h ≡ true
    → length h ≡ 32
    → is_uuidv7 h ≡ true
    → from_hex 0 h ≡ v
    → uuidv7_u128 (dashed h) ≡ ok v
unfolding uuidv7_u128
reread h v lower size test value =
    ap (λ t. if is_uuidv7 t then ok (from_hex 0 t) else err invalid_pulse_id)
      (cleaned-dashed h lower size)
    ∙ ap (λ b. if b then ok (from_hex 0 h) else err invalid_pulse_id) test
    ∙ ap ok value

-- A text that is accepted as a mail id is, once its spaces, dashes and capitals are gone, what the
-- number is written as between dashes; and that text is accepted as the same number.
pub uuidv7_str-uuidv7_u128 :
    (s : Str) (v : ℕ)
    → uuidv7_u128 s ≡ ok v
    → (uuidv7_str v ≡ dashed (cleaned s)) × (uuidv7_u128 (uuidv7_str v) ≡ ok v)
unfolding uuidv7_str
uuidv7_str-uuidv7_u128 s v e =
    let (test, value) = accepted s v e in
    let (digits, size, seven, variant) = is_uuidv7_facts (cleaned s) test in
    let lower = lowered (remove_dashes (trim s)) digits in
    let places : 32 ≡ length (cleaned s) + 0 = omega arith in
    let written : hex 32 v ≡ cleaned s = ap₂ hex places (sym value) ∙ printed (cleaned s) lower in
    (
      ap dashed written,
      ap (λ h. uuidv7_u128 (dashed h)) written ∙ reread (cleaned s) v lower size test value,
    )
