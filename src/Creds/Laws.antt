-- ===== src/Creds/Laws.antt =====
-- What validated credentials are, and which failure is reported.
use devicekit.Prelude.{ℕ, ◌≡◌, ◌≢◌, refl, Bool, true, ◌⊎◌, inl, inr, [], ◌∷◌, all, drop, arith}
use devicekit.Prelude.Text.{Str, chars, len, starts_with}
use devicekit.Prelude.Result.{Result, ok, err}
use devicekit.Outside.{Outside}
use devicekit.Creds.{
  Creds, CredErr, fleet_id_missing, fleet_id_invalid, device_id_missing, device_id_invalid,
  device_secret_missing, device_secret_invalid, validate_fleet_id, validate_device_id,
  validate_device_secret, validate, new,
}

module _ (o : Outside) where
  -- An id of `n` bytes.
  abbrev pub IsId : ℕ → Str → Type 0
  IsId n s = (len s ≡ n) × (all o.is_alphanumeric s ≡ true)

  abbrev pub IsSecret : Str → Type 0
  IsSecret s =
      (len s ≡ 36)
      × (starts_with (chars "FOS-") s ≡ true)
      × (all o.is_alphanumeric (drop 4 s) ≡ true)

  -- What a field's check answers: it passes, the field is missing, or it is invalid.
  abbrev Verdict : (Str → Type 0) → CredErr → CredErr → Str → Result (Unit {0}) CredErr → Type 0
  Verdict P missing invalid s r =
      ((r ≡ ok tt) × P s)
      ⊎ (((r ≡ err missing) × (s ≡ [])) ⊎ ((r ≡ err invalid) × (s ≢ []) × ¬ P s))

  fleet-IsId-Verdict :
      (s : Str) → Verdict (IsId 8) fleet_id_missing fleet_id_invalid s (validate_fleet_id o s)
  unfolding validate_fleet_id
  fleet-IsId-Verdict [] = inr (inl (refl, refl))
  fleet-IsId-Verdict (c ∷ s) = ground arith

  device-IsId-Verdict :
      (s : Str) → Verdict (IsId 10) device_id_missing device_id_invalid s (validate_device_id o s)
  unfolding validate_device_id
  device-IsId-Verdict [] = inr (inl (refl, refl))
  device-IsId-Verdict (c ∷ s) = ground arith

  device-IsSecret-Verdict :
      (s : Str)
      → Verdict IsSecret device_secret_missing device_secret_invalid s (validate_device_secret o s)
  unfolding validate_device_secret
  device-IsSecret-Verdict [] = inr (inl (refl, refl))
  device-IsSecret-Verdict (c ∷ s) = ground arith

  -- Why a triple is refused: the first of the three fields that fails decides.
  pub data Refused (f d s : Str) : CredErr → Type 0 where
    fleet_id_empty : f ≡ [] → Refused f d s fleet_id_missing
    fleet_id_bad : f ≢ [] → ¬ IsId 8 f → Refused f d s fleet_id_invalid
    device_id_empty : IsId 8 f → d ≡ [] → Refused f d s device_id_missing
    device_id_bad : IsId 8 f → d ≢ [] → ¬ IsId 10 d → Refused f d s device_id_invalid
    device_secret_empty : IsId 8 f → IsId 10 d → s ≡ [] → Refused f d s device_secret_missing
    device_secret_bad :
        IsId 8 f → IsId 10 d → s ≢ [] → ¬ IsSecret s → Refused f d s device_secret_invalid

  abbrev creds_of : Str → Str → Str → Bool → Creds
  creds_of f d s prod = record { fleet_id = f; device_id = d; device_secret = s; prod = prod }

  module _ (f d s : Str) (prod : Bool) where
    abbrev pub Outcome : Type 0
    Outcome =
        ((new o f d s prod ≡ ok (creds_of f d s prod)) × IsId 8 f × IsId 10 d × IsSecret s)
        ⊎ ((e : CredErr) × (new o f d s prod ≡ err e) × Refused f d s e)

    -- Credentials are made exactly of an 8-byte fleet id and a 10-byte device id that are
    -- alphanumeric, and a 36-byte secret with its mark; else the failure names the first field at
    -- fault, and says whether it is empty or wrong.
    pub new_outcome : Outcome
    unfolding new
    new_outcome = elim (fleet-IsId-Verdict f) [
      | inl (ef, pf) ↦ elim (device-IsId-Verdict d) [
        | inl (ed, pd) ↦ elim (device-IsSecret-Verdict s) [
          | inl (es, ps) ↦ inl (rw (ef, validate, ed, es), pf, pd, ps)
          | inr (inl (es, x)) ↦ inr (_, rw (ef, validate, ed, es), device_secret_empty pf pd x)
          | inr (inr (es, x, y)) ↦ inr (_, rw (ef, validate, ed, es), device_secret_bad pf pd x y)
        ]
        | inr (inl (ed, x)) ↦ inr (_, rw (ef, ed), device_id_empty pf x)
        | inr (inr (ed, x, y)) ↦ inr (_, rw (ef, ed), device_id_bad pf x y)
      ]
      | inr (inl (ef, x)) ↦ inr (_, rw ef, fleet_id_empty x)
      | inr (inr (ef, x, y)) ↦ inr (_, rw ef, fleet_id_bad x y)
    ]
