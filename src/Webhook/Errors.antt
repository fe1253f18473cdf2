-- ===== src/Webhook/Errors.antt =====
-- What the validation reports. A field path (k8s.io/apimachinery, `field.Path`) is kept as the calls
-- that build it, and a `field.Invalid` as its arguments.
use podlock.Prelude.{ℕ, List, Text}

pub data FieldPath : Type 0 where
  new_path : Text → Text → FieldPath
  key : FieldPath → Text → FieldPath
  child : FieldPath → Text → FieldPath
  index : FieldPath → ℕ → FieldPath

-- The rejected value: a text, or the members of a set.
pub data FieldValue : Type 0 where
  one : Text → FieldValue
  many : List Text → FieldValue

pub record FieldError : Type 0 where
  pub path : FieldPath
  pub value : FieldValue
  pub detail : Text

-- field.Invalid
abbrev pub invalid : FieldPath → FieldValue → Text → FieldError
invalid path value detail = record { path = path; value = value; detail = detail }
