-- ===== src/Exceptions.antt =====
-- How code with exceptions ends, for util/config.h and http/model.h.
pub mod Rules
use ncx_for_mall.Prelude.{ℕ, Bool, true, false, Option, none, some, List, if◌then◌else◌}

abbrev pub Text : Type 0
Text = List ℕ

abbrev pub is_some {ℓ} : {A : Type ℓ} → Option A → Bool
is_some none = false
is_some (some a) = true

-- The messages of the exceptions of config.h and of the `JsonException`s of model.h.
pub data Reason : Type 0 where
  config_empty not_a_table section_missing : Reason
  field_missing service_not_a_table : Text → Reason
  service_field_missing : Text → Text → Reason
  field_mistyped : Text → Reason
  unparsable unserializable : Reason

-- How a function ends: with a value, by an exception, by `exit(1)`, or through a null pointer.
pub data Try {ℓ} (A : Type ℓ) : Type ℓ where
  value : A → Try A
  throws exits : Reason → Try A
  crashes : Try A

infixl 5 ◌>>=◌
abbrev pub ◌>>=◌ {ℓ κ} : {A : Type ℓ} {B : Type κ} → Try A → (A → Try B) → Try B
value a >>= next = next a
throws r >>= next = throws r
exits r >>= next = exits r
crashes >>= next = crashes

-- `catch (const std::exception& e) { …; exit(1); }`
abbrev pub catch_exit {ℓ} : {A : Type ℓ} → Try A → Try A
catch_exit (throws r) = exits r
catch_exit t = t

-- `if (!pointer) throw …` and `pointer->…`
abbrev pub not_null {ℓ} : {A : Type ℓ} → Reason → Option A → Try A
not_null r none = throws r
not_null r (some a) = value a

abbrev pub deref {ℓ} : {A : Type ℓ} → Option A → Try A
deref none = crashes
deref (some a) = value a

-- `if (!node || !node.is_…()) throw …`
abbrev pub require {ℓ} : {A : Type ℓ} → (A → Bool) → Reason → Option A → Try A
require test r none = throws r
require test r (some n) = if test n then value n else throws r
