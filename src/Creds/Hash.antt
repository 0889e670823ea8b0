-- ===== src/Creds/Hash.antt =====
-- The configuration hash, by which `start` tells whether the running agent has the same
-- credentials: the hashed fields have fixed widths, so their concatenation is unambiguous.
use devicekit.Prelude.{
  ℕ, ◌≡◌, ◌↔◌, refl, ap, sym, ◌∙◌, Bool, true, false, List, [], ◌∷◌, ◌++◌, length, arith,
}
use devicekit.Prelude.Text.{as_bytes, len}
use devicekit.Outside.{Outside}
use devicekit.Creds.{Creds, bool_str, hash_input, hash}

-- Lists of the same length in front of two equal lists are equal, and so is what follows them.
append-injective :
    (xs ys us vs : List ℕ) → length xs ≡ length ys → xs ++ us ≡ ys ++ vs → (xs ≡ ys) × (us ≡ vs)
append-injective [] [] us vs h e = (refl, e)
append-injective [] (y ∷ ys) us vs h e = absurd (omega arith)
append-injective (x ∷ xs) [] us vs h e = absurd (omega arith)
append-injective (x ∷ xs) (y ∷ ys) us vs h e =
    let (p, q) = append-injective xs ys us vs (omega arith) (cc) in (cc, q)

abbrev pub HasWidths : Creds → Type 0
HasWidths c = (len c.fleet_id ≡ 8) × (len c.device_id ≡ 10) × (len c.device_secret ≡ 36)

abbrev pub SameFields : Creds → Creds → Type 0
SameFields c d =
    (as_bytes c.fleet_id ≡ as_bytes d.fleet_id)
    × (as_bytes c.device_id ≡ as_bytes d.device_id)
    × (as_bytes c.device_secret ≡ as_bytes d.device_secret)
    × (c.prod ≡ d.prod)

bool_str-injective :
    (b c : Bool) (rest : List ℕ)
    → as_bytes (bool_str b) ++ rest ≡ as_bytes (bool_str c) ++ rest
    → b ≡ c
bool_str-injective true true rest e = refl
bool_str-injective true false rest e = unfold as_bytes in absurd (omega (arith, ap length e))
bool_str-injective false true rest e = unfold as_bytes in absurd (omega (arith, ap length e))
bool_str-injective false false rest e = refl

module _ (o : Outside) where
  hash_input-injective :
      (c d : Creds) → HasWidths c → HasWidths d → hash_input o c ≡ hash_input o d → SameFields c d
  unfolding hash_input
  hash_input-injective c d (cf, cd, cs) (df, dd, ds) e =
      let (f, e₁) = append-injective _ _ _ _ (cf ∙ sym df) e in
      let (i, e₂) = append-injective _ _ _ _ (cd ∙ sym dd) e₁ in
      let (s, e₃) = append-injective _ _ _ _ (cs ∙ sym ds) e₂ in
      (f, i, s, bool_str-injective c.prod d.prod _ e₃)

  hash_input-SameFields : (c d : Creds) → SameFields c d → hash_input o c ≡ hash_input o d
  unfolding hash_input
  hash_input-SameFields c d (f, i, s, p) = rw (f, i, s, p) refl

  -- The digests of these two credentials do not collide, nor do the digests' texts.
  abbrev pub NoCollision : Creds → Creds → Type 0
  NoCollision c d =
      let x = hash_input o c in
      let y = hash_input o d in
      (o.sha256 x ≡ o.sha256 y → x ≡ y)
      × (o.hex_encode (o.sha256 x) ≡ o.hex_encode (o.sha256 y) → o.sha256 x ≡ o.sha256 y)

  -- Two credentials of the validated widths, whose own digests do not collide, have the same hash
  -- exactly if they have the same fields, byte for byte.
  pub hash-SameFields :
      (c d : Creds)
      → NoCollision c d
      → HasWidths c
      → HasWidths d
      → (hash o c ≡ hash o d) ↔ SameFields c d
  unfolding hash
  hash-SameFields c d (digest, hex) wc wd = (
    λ e. hash_input-injective c d wc wd (digest (hex e)),
    λ same. ap (λ bytes. o.hex_encode (o.sha256 bytes)) (hash_input-SameFields c d same),
  )
