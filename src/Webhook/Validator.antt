-- ===== src/Webhook/Validator.antt =====
-- The validator of landlockprofile_webhook.go.
use podlock.Prelude.{
  Option, none, some, List, [], ◌∷◌, ◌++◌, Text, codes, length, ltb, if◌then◌else◌,
}
use podlock.Map.{Map}
use podlock.Sets.{StringSets}
use podlock.Api.{Profile, ProfileByBinary, LandlockProfile}
use podlock.Webhook.Errors.{FieldPath, new_path, key, FieldError}
use podlock.Webhook.Paths.{
  validate_binary_path, validate_no_overlapping_paths, validate_read_only_paths,
  validate_read_write_paths, validate_read_exec_paths, validate_read_write_exec_paths,
}

-- apierrors.NewInvalid(groupKind, name, errs)
pub record InvalidError : Type 0 where
  pub group : Text
  pub kind : Text
  pub name : Text
  pub errs : List FieldError

-- `none` is the nil error.
abbrev pub admit : Text → List FieldError → Option InvalidError
admit name errs =
    if ltb 0 (length errs)
    then some (record {
      group = codes "podlock.kubewarden.io";
      kind = codes "LandlockProfile";
      name = name;
      errs = errs;
    })
    else none

module _ (S : StringSets) where
  -- The body of the inner loop of `validateProfile`.
  unfoldable pub validate_binary : Text → Profile → FieldPath → List FieldError
  validate_binary binary_path prof fld =
      validate_binary_path binary_path fld
      ++ (validate_no_overlapping_paths S prof fld
          ++ (validate_read_only_paths prof fld
              ++ (validate_read_write_paths prof fld
                  ++ (validate_read_exec_paths prof fld
                      ++ validate_read_write_exec_paths prof fld))))

  unfoldable pub validate_binaries : ProfileByBinary → FieldPath → List FieldError
  validate_binaries [] fld = []
  validate_binaries ((binary_path, prof) ∷ m) fld =
      validate_binary binary_path prof (key fld binary_path) ++ validate_binaries m fld

  unfoldable pub validate_containers : Map ProfileByBinary → FieldPath → List FieldError
  validate_containers [] fld = []
  validate_containers ((container_name, m) ∷ c) fld =
      validate_binaries m (key fld container_name) ++ validate_containers c fld

  -- A range over a nil map makes no round.
  unfoldable pub validate_profile : LandlockProfile → List FieldError
  validate_profile profile = elim profile.spec.profiles_by_container [
    | none ↦ []
    | some containers ↦
        validate_containers containers (new_path (codes "spec") (codes "profilesByContainer"))
  ]

  unfoldable pub validate_create : LandlockProfile → Option InvalidError
  validate_create profile = admit profile.name (validate_profile profile)

  unfoldable pub validate_update : LandlockProfile → LandlockProfile → Option InvalidError
  validate_update old new = admit new.name (validate_profile new)

  unfoldable pub validate_delete : LandlockProfile → Option InvalidError
  validate_delete profile = none
