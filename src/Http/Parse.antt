-- ===== src/Http/Parse.antt =====
-- The parsers of a request: they take lines and bytes off a source, and end with a refusal or a
-- result, like the functions of device-agent/src/http_server/request.rs, which return `Result`.
use devicekit.Prelude.{◌≡◌, refl}
use devicekit.Prelude.Result.{Result, ok, err}
use devicekit.Http.Response.{FailureResp}
use devicekit.Http.Lines.{Source}

abbrev pub Parsed {ℓ} : Type ℓ → Type ℓ
Parsed A = Source × Result A FailureResp

abbrev pub Parse {ℓ} : Type ℓ → Type ℓ
Parse A = Source → Parsed A

abbrev pub and_then {ℓ κ} : {A : Type ℓ} {B : Type κ} → Parsed A → (A → Parse B) → Parsed B
and_then (s, ok a) f = f a s
and_then (s, err e) f = (s, err e)

infixl 5 ◌>>=◌ ◌>>◌
abbrev pub ◌>>=◌ {ℓ κ} : {A : Type ℓ} {B : Type κ} → Parse A → (A → Parse B) → Parse B
◌>>=◌ m f s = and_then (m s) f

abbrev pub ◌>>◌ {κ} : {B : Type κ} → Parse (Unit {0}) → Parse B → Parse B
m >> k = m >>= λ _. k

abbrev pub pure {ℓ} : {A : Type ℓ} → A → Parse A
pure a s = (s, ok a)

-- A result that reads nothing.
abbrev pub lift {ℓ} : {A : Type ℓ} → Result A FailureResp → Parse A
lift r s = (s, r)

-- What a parse that succeeds has gone through.
pub and_then-succeeds {ℓ κ} :
    {A : Type ℓ} {B : Type κ} (f : A → Parse B) (p : Parsed A) {s : Source} {b : B}
    → and_then p f ≡ (s, ok b)
    → (s' : Source) × (a : A) × (f a s' ≡ (s, ok b)) × (p ≡ (s', ok a))
and_then-succeeds f (s', ok a) e = (s', a, e, refl)
and_then-succeeds f (s', err x) e = cc
