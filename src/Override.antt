-- ===== src/Override.antt =====
-- chimera/core/override.py: the salted-hash store of the gate-override phrase. The state is the
-- file: absent, or its contents, which may not be a payload at all. PBKDF2 is a parameter; JSON and
-- hexadecimal are read back as they were written.
pub mod Phrase
use macbastion.Prelude.{
  ℕ, String, Bool, true, false, not, ◌&&◌, ◌||◌, Option, none, some, str_eq, is_some, if◌then◌else◌,
}

abbrev pub iterations_default : ℕ
iterations_default = 200000

pub record Payload : Type 0 where
  pub salt : String
  pub hash : String
  pub iterations : ℕ

-- `some none` is a file that `verify` cannot read as a payload
abbrev pub PhraseFile : Type 0
PhraseFile = Option (Option Payload)

abbrev pub is_set : PhraseFile → Bool
is_set file = is_some file

-- `hashlib.pbkdf2_hmac("sha256", phrase, salt, iterations)`
module _ (pbkdf2 : String → String → ℕ → String) where
  -- `OverrideStore.verify`
  unfoldable pub verify : String → PhraseFile → Bool
  verify phrase none = false
  verify phrase (some none) = false
  verify phrase (some (some p)) = str_eq (pbkdf2 phrase p.salt p.iterations) p.hash

  -- `current is None or not self.verify(current)`, denied
  abbrev pub knows_current : Option String → PhraseFile → Bool
  knows_current none file = false
  knows_current (some current) file = verify current file

  -- `OverrideStore.set_phrase`, with the salt that `os.urandom` gave
  unfoldable pub set_phrase : String → Option String → String → PhraseFile → Bool × PhraseFile
  set_phrase phrase current salt file =
      if is_set file && not (knows_current current file) then (false, file) else (
        true,
        some (
            some (record {
              salt = salt;
              hash = pbkdf2 phrase salt iterations_default;
              iterations = iterations_default;
            })),
      )
