-- ===== src/Tests/Creds.antt =====
-- Credentials at concrete texts.
use devicekit.Prelude.{
  ℕ, zero, suc, ◌+◌, ◌/◌, ◌%◌, ◌≡◌, ◌↔◌, refl, ap, true, false, List, [], ◌∷◌, ltb, if◌then◌else◌,
  arith,
}
use devicekit.Prelude.Text.{Str, as_bytes}
use devicekit.Creds.Laws.{Outcome, new_outcome}
use devicekit.Creds.Hash.{HasWidths, SameFields, NoCollision, hash-SameFields}
use devicekit.Creds.{Creds, hash, hash_input}
use devicekit.Outside.{Outside}
use devicekit.Tests.Sample.{sample, fleet, device, secret, sample_creds}

new_outcome_example : Outcome sample fleet device secret true
new_outcome_example = new_outcome sample fleet device secret true

pub sample-HasWidths : HasWidths sample_creds
unfolding as_bytes
sample-HasWidths = (refl, refl, refl)

-- A digest of 32 bytes, the first the sum of all, in hexadecimal digits.
abbrev sum : List ℕ → ℕ
sum [] = 0
sum (b ∷ bytes) = b + sum bytes

abbrev zeros : ℕ → List ℕ
zeros zero = []
zeros (suc n) = 0 ∷ zeros n

abbrev pub digit : ℕ → ℕ
digit n = if ltb n 10 then b'0' + n else if ltb n 16 then 87 + n else b'0'

abbrev pub hex : List ℕ → Str
hex [] = []
hex (b ∷ bytes) = digit (b / 16) ∷ digit (b % 16) ∷ hex bytes

abbrev pub digested : Outside
digested = record sample { sha256 = λ bytes. sum bytes % 256 ∷ zeros 31; hex_encode = hex }

abbrev first : List ℕ → ℕ
first [] = 0
first (b ∷ bytes) = b

abbrev second : List ℕ → ℕ
second [] = 0
second (b ∷ bytes) = first bytes

-- The same credentials, but not for production.
abbrev pub local_creds : Creds
local_creds = record sample_creds { prod = false }

pub local-NoCollision : NoCollision digested sample_creds local_creds
unfolding hash_input as_bytes
local-NoCollision =
    (λ e. absurd (omega (arith, ap first e)), λ e. absurd (omega (arith, ap first e, ap second e)))

hash-SameFields_example :
    (hash digested sample_creds ≡ hash digested local_creds) ↔ SameFields sample_creds local_creds
hash-SameFields_example =
    hash-SameFields digested sample_creds local_creds local-NoCollision sample-HasWidths
      sample-HasWidths
