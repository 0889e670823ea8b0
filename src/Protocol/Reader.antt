-- ===== src/Protocol/Reader.antt =====
-- The reader behind `MoonlightPacket::from_bytes`: it takes fields off the front of the bytes, and
-- tells an input that ends too early (`DekuError::Incomplete`) from one that cannot be a packet.
pub mod Laws
use devicekit.Prelude.{
  ℕ, zero, suc, ◌+◌, ◌*◌, ◌/◌, ◌%◌, Bool, true, false, Option, none, some, List, [], ◌∷◌, ◌++◌,
  ◌==◌,
}
use devicekit.Protocol.{Bytes, ByteEnum}

-- `done` carries the bytes that are left.
pub data Read {ℓ} (A : Type ℓ) : Type ℓ where
  done : A → Bytes → Read A
  incomplete : Read A
  invalid : Read A

abbrev pub Reader {ℓ} : Type ℓ → Type ℓ
Reader A = Bytes → Read A

abbrev pub then_read {ℓ κ} : {A : Type ℓ} {B : Type κ} → Read A → (A → Reader B) → Read B
then_read (done a rest) k = k a rest
then_read incomplete k = incomplete
then_read invalid k = invalid

infixl 5 ◌>>=◌
abbrev pub ◌>>=◌ {ℓ κ} : {A : Type ℓ} {B : Type κ} → Reader A → (A → Reader B) → Reader B
◌>>=◌ m k bs = then_read (m bs) k

abbrev pub pure {ℓ} : {A : Type ℓ} → A → Reader A
pure a bs = done a bs

-- A big-endian word of `k` bytes, behind those that `acc` holds.
unfoldable pub read_word : ℕ → ℕ → Reader ℕ
read_word zero acc bs = done acc bs
read_word (suc k) acc [] = incomplete
read_word (suc k) acc (b ∷ bs) = read_word k (acc * 256 + b) bs

abbrev pub read_u8 : Reader ℕ
read_u8 [] = incomplete
read_u8 (b ∷ bs) = done b bs

abbrev pub cons_read : ℕ → Read Bytes → Read Bytes
cons_read b (done xs rest) = done (b ∷ xs) rest
cons_read b incomplete = incomplete
cons_read b invalid = invalid

-- A `Vec<u8>` of `count` elements.
unfoldable pub read_vec : ℕ → Reader Bytes
read_vec zero bs = done [] bs
read_vec (suc n) [] = incomplete
read_vec (suc n) (b ∷ bs) = cons_read b (read_vec n bs)

abbrev pub some_or_invalid {ℓ} : {A : Type ℓ} → Option A → Reader A
some_or_invalid none bs = invalid
some_or_invalid (some a) bs = done a bs

-- An enum: a byte that is no variant's id is an error.
abbrev pub read_enum : {E : Type 0} → ByteEnum E → Reader E
read_enum e = do n ← read_u8; some_or_invalid (e.of_id n)

-- The last bit of a flags byte, and the last but one. Bits that pad are skipped.
abbrev pub low_flag : ℕ → Bool
low_flag b = b % 2 == 1

abbrev pub next_flag : ℕ → Bool
next_flag b = b / 2 % 2 == 1

-- `cond`: a field that is there or not.
abbrev pub read_if {ℓ} : {A : Type ℓ} → Bool → Reader A → Reader (Option A)
read_if true m = do a ← m; pure (some a)
read_if false m = pure none
