-- ===== src/Client/Txns.antt =====
-- `HashMap<u128, (Instant, ReturnChan)>`: the transactions that wait for an answer, as an
-- association list. A return channel is a number, an instant a number of milliseconds.
use devicekit.Prelude.{
  ℕ, ◌+◌, ◌≡◌, ◌≢◌, refl, Bool, true, false, Option, none, some, List, [], ◌∷◌, ◌==◌, if◌then◌else◌,
  arith,
}

abbrev pub Chan : Type 0
Chan = ℕ

abbrev pub Entry : Type 0
Entry = ℕ × Chan

abbrev pub Txns : Type 0
Txns = List (ℕ × Entry)

unfoldable pub get : ℕ → Txns → Option Entry
get k [] = none
get k ((j, e) ∷ m) = if j == k then some e else get k m

unfoldable pub contains_key : ℕ → Txns → Bool
contains_key k [] = false
contains_key k ((j, e) ∷ m) = if j == k then true else contains_key k m

unfoldable pub insert : ℕ → Entry → Txns → Txns
insert k e [] = (k, e) ∷ []
insert k e ((j, f) ∷ m) = if j == k then (k, e) ∷ m else (j, f) ∷ insert k e m

unfoldable pub remove : ℕ → Txns → Txns
remove k [] = []
remove k ((j, e) ∷ m) = if j == k then m else (j, e) ∷ remove k m

-- How often a channel waits in the map, and how often it stands in a list of channels.
abbrev pub one_if : Bool → ℕ
one_if true = 1
one_if false = 0

unfoldable pub waiting : Chan → Txns → ℕ
waiting c [] = 0
waiting c ((j, (t, d)) ∷ m) = one_if (d == c) + waiting c m

pub get-contains_key : (k : ℕ) (m : Txns) → contains_key k m ≡ false → get k m ≡ none
unfolding get contains_key
get-contains_key k [] h = refl
get-contains_key k ((j, e) ∷ m) h = ground (arith, get-contains_key k m)

pub get-insert :
    (k j : ℕ) (e : Entry) (m : Txns) → get j (insert k e m) ≡ (if k == j then some e else get j m)
unfolding get insert
get-insert k j e [] = refl
get-insert k j e ((i, f) ∷ m) = ground (arith, get-insert k j e m)

pub waiting-insert :
    (c k t : ℕ) (d : Chan) (m : Txns)
    → contains_key k m ≡ false
    → waiting c (insert k (t, d) m) ≡ one_if (d == c) + waiting c m
unfolding waiting insert contains_key
waiting-insert c k t d [] h = refl
waiting-insert c k t d ((i, f) ∷ m) h = ground (arith, waiting-insert c k t d m)

-- A channel that is answered when its key is removed was waiting before.
pub waiting-remove :
    (c k t : ℕ) (d : Chan) (m : Txns)
    → get k m ≡ some (t, d)
    → waiting c m ≡ one_if (d == c) + waiting c (remove k m)
unfolding waiting get remove
waiting-remove c k t d [] h = cc
waiting-remove c k t d ((i, (u, f)) ∷ m) h = ground (arith, waiting-remove c k t d m)

pub remove_missing : (k : ℕ) (m : Txns) → get k m ≡ none → remove k m ≡ m
unfolding get remove
remove_missing k [] h = refl
remove_missing k ((i, f) ∷ m) h = ground (arith, remove_missing k m)

pub get-remove_ne : (k j : ℕ) (m : Txns) → k ≢ j → get j (remove k m) ≡ get j m
unfolding get remove
get-remove_ne k j [] h = refl
get-remove_ne k j ((i, f) ∷ m) h = ground (arith, get-remove_ne k j m h)

-- No key stands twice.
abbrev pub HasDistinctKeys : Txns → Type 0
HasDistinctKeys [] = Unit
HasDistinctKeys ((j, e) ∷ m) = (contains_key j m ≡ false) × HasDistinctKeys m

pub contains_key-insert :
    (k j : ℕ) (e : Entry) (m : Txns)
    → contains_key j (insert k e m) ≡ (if k == j then true else contains_key j m)
unfolding contains_key insert
contains_key-insert k j e [] = refl
contains_key-insert k j e ((i, f) ∷ m) = ground (arith, contains_key-insert k j e m)

pub insert-HasDistinctKeys :
    (k : ℕ) (e : Entry) (m : Txns) → HasDistinctKeys m → HasDistinctKeys (insert k e m)
unfolding insert
insert-HasDistinctKeys k e [] h = (unfold contains_key in refl, tt)
insert-HasDistinctKeys k e ((i, f) ∷ m) h =
    ground (arith, insert-HasDistinctKeys k e m h.1, contains_key-insert k i e m)

pub contains_key-remove-false :
    (k j : ℕ) (m : Txns) → contains_key j m ≡ false → contains_key j (remove k m) ≡ false
unfolding contains_key remove
contains_key-remove-false k j [] h = refl
contains_key-remove-false k j ((i, f) ∷ m) h = ground (arith, contains_key-remove-false k j m)

pub remove-HasDistinctKeys : (k : ℕ) (m : Txns) → HasDistinctKeys m → HasDistinctKeys (remove k m)
unfolding remove
remove-HasDistinctKeys k [] h = tt
remove-HasDistinctKeys k ((i, f) ∷ m) h =
    ground (arith, remove-HasDistinctKeys k m h.1, contains_key-remove-false k i m h.0)

pub get-remove_self : (k : ℕ) (m : Txns) → HasDistinctKeys m → get k (remove k m) ≡ none
unfolding get remove
get-remove_self k [] h = refl
get-remove_self k ((i, f) ∷ m) h = ground (arith, get-remove_self k m h.1, get-contains_key i m h.0)
