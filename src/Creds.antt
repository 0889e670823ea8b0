-- ===== src/Creds.antt =====
-- `Creds` of device-agent/src/moonlight_codec.rs: the device's credentials and their validation.
pub mod Laws
pub mod Hash
use devicekit.Prelude.{
  ℕ, List, Bool, true, false, not, ◌&&◌, ◌||◌, ◌++◌, ◌==◌, if◌then◌else◌, drop, all,
}
use devicekit.Prelude.Text.{Str, as_bytes, chars, len, is_empty, starts_with}
use devicekit.Prelude.Result.{Result, ok, err, ◌>>=◌, ◌>>◌}
use devicekit.Outside.{Outside}

pub data CredErr : Type 0 where
  fleet_id_missing fleet_id_invalid : CredErr
  device_id_missing device_id_invalid : CredErr
  device_secret_missing device_secret_invalid : CredErr

pub record Creds : Type 0 where
  pub fleet_id : Str
  pub device_id : Str
  pub device_secret : Str
  pub prod : Bool

abbrev bool_str : Bool → Str
bool_str true = chars "true"
bool_str false = chars "false"

module _ (o : Outside) where
  unfoldable pub validate_fleet_id : Str → Result (Unit {0}) CredErr
  validate_fleet_id fleet_id =
      if is_empty fleet_id
      then err fleet_id_missing
      else if not (len fleet_id == 8) || not (all o.is_alphanumeric fleet_id)
      then err fleet_id_invalid
      else ok tt

  unfoldable pub validate_device_id : Str → Result (Unit {0}) CredErr
  validate_device_id device_id =
      if is_empty device_id
      then err device_id_missing
      else if not (len device_id == 10) || not (all o.is_alphanumeric device_id)
      then err device_id_invalid
      else ok tt

  unfoldable pub validate_device_secret : Str → Result (Unit {0}) CredErr
  validate_device_secret device_secret =
      if is_empty device_secret
      then err device_secret_missing
      else if not (len device_secret == 36)
          || not (starts_with (chars "FOS-") device_secret)
          || not (all o.is_alphanumeric (drop 4 device_secret))
      then err device_secret_invalid
      else ok tt

  validate : Creds → Result (Unit {0}) CredErr
  validate creds = do
    validate_fleet_id creds.fleet_id
    validate_device_id creds.device_id
    validate_device_secret creds.device_secret
    ok tt

  unfoldable pub new : Str → Str → Str → Bool → Result Creds CredErr
  unfolding validate
  new fleet_id device_id device_secret prod = do
    let creds : Creds = record {
      fleet_id = fleet_id;
      device_id = device_id;
      device_secret = device_secret;
      prod = prod;
    }
    validate creds
    ok creds

  -- The bytes that the hasher is fed.
  unfoldable pub hash_input : Creds → List ℕ
  hash_input c =
      as_bytes c.fleet_id
      ++ (as_bytes c.device_id
          ++ (as_bytes c.device_secret ++ (as_bytes (bool_str c.prod) ++ as_bytes o.version)))

  unfoldable pub hash : Creds → Str
  hash c = o.hex_encode (o.sha256 (hash_input c))
