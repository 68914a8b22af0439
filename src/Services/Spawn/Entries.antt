-- ===== src/Services/Spawn/Entries.antt =====
-- The environment that `spawn_service` of beam-init/src/spawn.rs hands to the new process, for a
-- configuration that `ServiceConfig::validate` of beam-init/src/services.rs accepts.
use beam_init.Base.{map, ℕ, ◌≡◌, refl, false, ◌||◌, some, [], ◌∷◌, ◌++◌, ◌==◌, arith}
use beam_init.Base.Text.{Text, contains}
use beam_init.Environment.Line.{before_rest, split_once}
use beam_init.Services.Outcome.{err, ◌>>◌, Outcome, ok}
use beam_init.Services.Manager.{validate, valid_entry}
use beam_init.Base.Map.{Map}
use beam_init.Services.Spawn.{env_entries, done, c_strings, c_string}

contains-append :
    (byte c : ℕ) (k v : Text)
    → contains byte (k ++ c ∷ v) ≡ (contains byte k || (c == byte || contains byte v))
unfolding contains
contains-append byte c [] v = refl
contains-append byte c (x ∷ k) v = ground (arith, contains-append byte c k v)

pub split_once-append :
    (byte : ℕ) (k v : Text)
    → contains byte k ≡ false
    → split_once byte (k ++ byte ∷ v) ≡ some (k, v)
unfolding contains split_once before_rest
split_once-append byte [] v h = ground arith
split_once-append byte (x ∷ k) v h = rw (split_once-append byte k v (ground arith)) (ground arith)

-- What `validate` asks of an entry.
record IsEntry (k v : Text) : Type 0 where
  equals : contains 61 k ≡ false
  nul_key : contains 0 k ≡ false
  nul_value : contains 0 v ≡ false

valid_entry-IsEntry : (k v : Text) → valid_entry k v ≡ ok tt → IsEntry k v
unfolding valid_entry
valid_entry-IsEntry k v h = record {
  equals = ground (arith, h);
  nul_key = ground (arith, h);
  nul_value = ground (arith, h);
}

both_ok : (a b : Outcome (Unit {0})) → (a >> b) ≡ ok tt → (a ≡ ok tt) × (b ≡ ok tt)
both_ok (ok u) b h = (refl, h)
both_ok (err e) b h = absurd cc
both_ok Outcome.panic b h = absurd cc

-- What the new process is handed of an environment: each entry is passed on as it stands, and
-- splitting it at its first `=` gives the variable and its value back.
pub record IsPassed (env : Map Text) : Type 0 where
  pub passed : c_strings (env_entries env) ≡ done (env_entries env)
  pub splits : map (split_once 61) (env_entries env) ≡ map (λ (e : Text × Text). some e) env

c_string-entry : (k v : Text) → IsEntry k v → c_string (k ++ 61 ∷ v) ≡ done (k ++ 61 ∷ v)
unfolding c_string
c_string-entry k v i = rw (contains-append 0 61 k v) (ground (arith, i.nul_key, i.nul_value))

-- An environment that `validate` accepts reaches the new process unchanged: no entry is refused
-- for a NUL byte, and each is read back as the variable and the value that were configured.
pub validate-IsPassed : (env : Map Text) → validate env ≡ ok tt → IsPassed env
unfolding validate c_strings env_entries
validate-IsPassed [] h = record { passed = refl; splits = refl }
validate-IsPassed ((k, v) ∷ env) h =
    let (first, others) = both_ok (valid_entry k v) (validate env) h in
    let i = valid_entry-IsEntry k v first in
    let rest = validate-IsPassed env others in
    record {
      passed = rw (c_string-entry k v i, rest.passed) refl;
      splits = rw (split_once-append 61 k v i.equals, rest.splits) refl;
    }
