-- ===== src/Cli/Start/Again.antt =====
-- When an agent is taken to run already.
use devicekit.Prelude.{ℕ, ◌≡◌, true, List, all}
use devicekit.Prelude.Text.{is_ascii_hexdigit}
use devicekit.Outside.{Outside}
use devicekit.Cli.Files.{Files}

module _ (o : Outside) where
  -- Digests are written in hexadecimal digits.
  abbrev pub IsHex : Type 0
  IsHex = (x : List ℕ) → all is_ascii_hexdigit (o.hex_encode x) ≡ true
