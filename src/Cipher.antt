-- ===== src/Cipher.antt =====
-- Fernet over JSON, as the baseline stores of ORACLE and PULSE use it: `encrypt(json.dumps(x))` and
-- `json.loads(decrypt(token))`, which raises for a token that was tampered with.
use macbastion.Prelude.{String}
use macbastion.Exec.{Result}

pub record Cipher (A : Type 0) : Type 0 where
  pub seal : A → String
  pub unseal : String → Result A
