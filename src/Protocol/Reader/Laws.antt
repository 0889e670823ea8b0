-- ===== src/Protocol/Reader/Laws.antt =====
-- Laws of the field readers: what a reader makes of longer input, how much it takes, and what it
-- reads back.
use devicekit.Prelude.{
  ℕ, zero, suc, ◌+◌, ◌*◌, ◌≡◌, refl, sym, ap, ◌∙◌, Bool, true, false, Option, none, some, [], ◌∷◌,
  ◌++◌, append_assoc, ◌⊎◌, inl, inr, if◌then◌else◌,
}
use devicekit.Protocol.{Bytes, ByteEnum}
use devicekit.Protocol.Reader.{
  Read, done, incomplete, invalid, Reader, then_read, ◌>>=◌, pure, read_word, read_u8, cons_read,
  read_vec, some_or_invalid, read_enum, read_if,
}

pub Read-cases {ℓ} :
    {A : Type ℓ} (r : Read A)
    → ((a : A) × (rest : Bytes) × (r ≡ done a rest)) ⊎ ((r ≡ incomplete) ⊎ (r ≡ invalid))
Read-cases (done a rest) = inl (a, rest, refl)
Read-cases incomplete = inr (inl refl)
Read-cases invalid = inr (inr refl)

-- `s` is what a reader makes of the input when `more` is added to it: an answer stays.
abbrev pub Agrees {ℓ} : {A : Type ℓ} → Read A → Bytes → Read A → Type ℓ
Agrees (done a rest) more s = s ≡ done a (rest ++ more)
Agrees incomplete more s = Unit
Agrees invalid more s = s ≡ invalid

abbrev pub IsStable {ℓ} : {A : Type ℓ} → Reader A → Type ℓ
IsStable m = (bs more : Bytes) → Agrees (m bs) more (m (bs ++ more))

-- What is left is the end of the input.
abbrev pub EndsIn {ℓ} : {A : Type ℓ} → Bytes → Read A → Type 0
EndsIn bs (done a rest) = (used : Bytes) × (bs ≡ used ++ rest)
EndsIn bs incomplete = Unit
EndsIn bs invalid = Unit

abbrev pub IsFrugal {ℓ} : {A : Type ℓ} → Reader A → Type 0
IsFrugal m = (bs : Bytes) → EndsIn bs (m bs)

pub record IsLawful {ℓ} {A : Type ℓ} (m : Reader A) : Type ℓ where
  pub stable : IsStable m
  pub frugal : IsFrugal m

EndsIn-append {ℓ} : {A : Type ℓ} (xs bs : Bytes) (r : Read A) → EndsIn bs r → EndsIn (xs ++ bs) r
EndsIn-append xs bs (done a rest) (used, e) =
    (xs ++ used, ap (λ b. xs ++ b) e ∙ sym (append_assoc xs used rest))
EndsIn-append xs bs incomplete h = tt
EndsIn-append xs bs invalid h = tt

module _ {ℓ κ} {A : Type ℓ} {B : Type κ} where
  then_read-Agrees :
      (r s : Read A) (more : Bytes) (k : A → Reader B)
      → ((a : A) → IsLawful (k a))
      → Agrees r more s
      → Agrees (then_read r k) more (then_read s k)
  then_read-Agrees (done a rest) s more k h e = rw e ((h a).stable rest more)
  then_read-Agrees incomplete s more k h e = tt
  then_read-Agrees invalid s more k h e = rw e

  then_read-EndsIn :
      (bs : Bytes) (r : Read A) (k : A → Reader B)
      → ((a : A) → IsLawful (k a))
      → EndsIn bs r
      → EndsIn bs (then_read r k)
  then_read-EndsIn bs (done a rest) k h (used, e) =
      rw e (EndsIn-append used rest (k a rest) ((h a).frugal rest))
  then_read-EndsIn bs incomplete k h e = tt
  then_read-EndsIn bs invalid k h e = tt

  pub bind-IsLawful :
      {m : Reader A} {k : A → Reader B}
      → IsLawful m
      → ((a : A) → IsLawful (k a))
      → IsLawful (m >>= k)
  bind-IsLawful {m} {k} hm hk = record {
    stable = λ bs more. then_read-Agrees (m bs) (m (bs ++ more)) more k hk (hm.stable bs more);
    frugal = λ bs. then_read-EndsIn bs (m bs) k hk (hm.frugal bs);
  }

pub pure-IsLawful {ℓ} : {A : Type ℓ} (a : A) → IsLawful (pure a)
pure-IsLawful a = record { stable = λ bs more. refl; frugal = λ bs. ([], refl) }

pub invalid-IsLawful {ℓ} : {A : Type ℓ} → IsLawful {A = A} (λ bs. invalid)
invalid-IsLawful = record { stable = λ bs more. refl; frugal = λ bs. tt }

read_u8-IsStable : IsStable read_u8
read_u8-IsStable [] more = tt
read_u8-IsStable (b ∷ bs) more = refl

read_u8-IsFrugal : IsFrugal read_u8
read_u8-IsFrugal [] = tt
read_u8-IsFrugal (b ∷ bs) = (b ∷ [], refl)

pub read_u8-IsLawful : IsLawful read_u8
read_u8-IsLawful = record { stable = read_u8-IsStable; frugal = read_u8-IsFrugal }

read_word-IsStable : (k acc : ℕ) → IsStable (read_word k acc)
unfolding read_word
read_word-IsStable zero acc bs more = refl
read_word-IsStable (suc k) acc [] more = tt
read_word-IsStable (suc k) acc (b ∷ bs) more = read_word-IsStable k (acc * 256 + b) bs more

read_word-IsFrugal : (k acc : ℕ) → IsFrugal (read_word k acc)
unfolding read_word
read_word-IsFrugal zero acc bs = ([], refl)
read_word-IsFrugal (suc k) acc [] = tt
read_word-IsFrugal (suc k) acc (b ∷ bs) =
    EndsIn-append (b ∷ []) bs (read_word k (acc * 256 + b) bs)
      (read_word-IsFrugal k (acc * 256 + b) bs)

pub read_word-IsLawful : (k acc : ℕ) → IsLawful (read_word k acc)
read_word-IsLawful k acc = record {
  stable = read_word-IsStable k acc;
  frugal = read_word-IsFrugal k acc;
}

cons_read-Agrees :
    (b : ℕ) (r s : Read Bytes) (more : Bytes)
    → Agrees r more s
    → Agrees (cons_read b r) more (cons_read b s)
cons_read-Agrees b (done xs rest) s more e = rw e
cons_read-Agrees b incomplete s more e = tt
cons_read-Agrees b invalid s more e = rw e

cons_read-EndsIn : (b : ℕ) (bs : Bytes) (r : Read Bytes) → EndsIn bs r → EndsIn bs (cons_read b r)
cons_read-EndsIn b bs (done xs rest) h = h
cons_read-EndsIn b bs incomplete h = tt
cons_read-EndsIn b bs invalid h = tt

read_vec-IsStable : (n : ℕ) → IsStable (read_vec n)
unfolding read_vec
read_vec-IsStable zero bs more = refl
read_vec-IsStable (suc n) [] more = tt
read_vec-IsStable (suc n) (b ∷ bs) more =
    cons_read-Agrees b (read_vec n bs) (read_vec n (bs ++ more)) more (read_vec-IsStable n bs more)

read_vec-IsFrugal : (n : ℕ) → IsFrugal (read_vec n)
unfolding read_vec
read_vec-IsFrugal zero bs = ([], refl)
read_vec-IsFrugal (suc n) [] = tt
read_vec-IsFrugal (suc n) (b ∷ bs) =
    cons_read-EndsIn b (b ∷ bs) (read_vec n bs)
      (EndsIn-append (b ∷ []) bs (read_vec n bs) (read_vec-IsFrugal n bs))

pub read_vec-IsLawful : (n : ℕ) → IsLawful (read_vec n)
read_vec-IsLawful n = record { stable = read_vec-IsStable n; frugal = read_vec-IsFrugal n }

some_or_invalid-IsLawful : {A : Type 0} (o : Option A) → IsLawful (some_or_invalid o)
some_or_invalid-IsLawful none = invalid-IsLawful
some_or_invalid-IsLawful (some a) = pure-IsLawful a

pub read_enum-IsLawful : {E : Type 0} (e : ByteEnum E) → IsLawful (read_enum e)
read_enum-IsLawful e = bind-IsLawful read_u8-IsLawful (λ n. some_or_invalid-IsLawful (e.of_id n))

pub read_if-IsLawful {ℓ} :
    {A : Type ℓ} (b : Bool) {m : Reader A} → IsLawful m → IsLawful (read_if b m)
read_if-IsLawful true h = bind-IsLawful h (λ a. pure-IsLawful (some a))
read_if-IsLawful false h = pure-IsLawful none

pub if-IsLawful {ℓ} :
    {A : Type ℓ} (b : Bool) {m n : Reader A}
    → IsLawful m
    → IsLawful n
    → IsLawful (if b then m else n)
if-IsLawful true h k = h
if-IsLawful false h k = k

pub ruleset lawful = (
  bind-IsLawful, pure-IsLawful, read_u8-IsLawful, read_word-IsLawful, read_vec-IsLawful,
  read_enum-IsLawful, read_if-IsLawful,
)
