-- ===== src/Http/Headers/Laws.antt =====
-- The laws of a map of headers.
use devicekit.Prelude.{
  ◌≡◌, refl, ap, ap₂, ◌∙◌, inl, inr, true, false, none, some, [], ◌∷◌, All, Bool-cases,
  if◌then◌else◌, arith,
}
use devicekit.Prelude.Text.{Str, str_eq}
use devicekit.Http.Headers.{Headers, get, insert, remove}

pub str_eq_refl : (s : Str) → str_eq s s ≡ true
str_eq_refl [] = refl
str_eq_refl (c ∷ s) = ground (arith, str_eq_refl s)

pub str_eq→≡ : (s t : Str) → str_eq s t ≡ true → s ≡ t
str_eq→≡ [] [] e = refl
str_eq→≡ [] (d ∷ t) e = cc
str_eq→≡ (c ∷ s) [] e = cc
str_eq→≡ (c ∷ s) (d ∷ t) e =
    let head : c ≡ d = ground arith in
    let tail : str_eq s t ≡ true = ground arith in ap₂ ◌∷◌ head (str_eq→≡ s t tail)

pub get-insert : (key value : Str) (hs : Headers) → get key (insert key value hs) ≡ some value
unfolding get insert
get-insert key value [] = rw (str_eq_refl key) refl
get-insert key value ((k, v) ∷ hs) = elim (Bool-cases (str_eq k key)) [
  | inl h ↦ rw h (rw (str_eq_refl key) refl)
  | inr h ↦ rw h (rw h (get-insert key value hs))
]

pub get-insert_other :
    (other key value : Str) (hs : Headers)
    → str_eq key other ≡ false
    → get other (insert key value hs) ≡ get other hs
unfolding get insert
get-insert_other other key value [] h = rw h refl
get-insert_other other key value ((k, v) ∷ hs) h = elim (Bool-cases (str_eq k key)) [
  | inl e ↦ rw e (rw (h, ap (λ t. str_eq t other) (str_eq→≡ k key e) ∙ h) refl)
  | inr e ↦
      rw e (ap (λ r. if str_eq k other then some v else r) (get-insert_other other key value hs h))
]

pub get-remove : (key : Str) (hs : Headers) → get key (remove key hs) ≡ none
unfolding get remove
get-remove key [] = refl
get-remove key ((k, v) ∷ hs) = elim (Bool-cases (str_eq k key)) [
  | inl h ↦ rw h (get-remove key hs)
  | inr h ↦ rw h (rw h (get-remove key hs))
]

-- A property of all names.
abbrev pub Named : (Str → Type 0) → Headers → Type 0
Named P hs = All (λ header. P header.0) hs

pub insert-Named :
    (P : Str → Type 0) (key value : Str) (hs : Headers)
    → P key
    → Named P hs
    → Named P (insert key value hs)
unfolding insert
insert-Named P key value [] p h = (p, tt)
insert-Named P key value ((k, v) ∷ hs) p (q, h) = elim (Bool-cases (str_eq k key)) [
  | inl e ↦ rw e (p, h)
  | inr e ↦ rw e (q, insert-Named P key value hs p h)
]

pub remove-Named :
    (P : Str → Type 0) (key : Str) (hs : Headers) → Named P hs → Named P (remove key hs)
unfolding remove
remove-Named P key [] h = tt
remove-Named P key ((k, v) ∷ hs) (q, h) = elim (Bool-cases (str_eq k key)) [
  | inl e ↦ rw e (remove-Named P key hs h)
  | inr e ↦ rw e (q, remove-Named P key hs h)
]
