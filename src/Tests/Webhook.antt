-- ===== src/Tests/Webhook.antt =====
-- The webhook.

use podlock.Prelude.{
  not, ◌&&◌, ◌||◌, ◌==◌, ◌≡◌, refl, ◌↔◌, none, List, [], ◌∷◌, Text, codes, contains, text_eq,
}
use podlock.Sets.{list_sets, list_sets-IsLawful, from_list, meet}
use podlock.Finalizers.{list_finalizers, list_finalizers-IsLawful}
use podlock.FilePath.{clean}
use podlock.Api.{LandlockProfile, landlock_profile_finalizer, is_being_deleted}
use podlock.Webhook.Errors.{FieldPath, new_path, key, child, index, FieldError, one, many, invalid}
use podlock.Webhook.Paths.{
  validate_binary_path, validate_paths_from, validate_no_overlapping_paths,
  validate_read_only_paths, validate_read_write_paths, validate_read_exec_paths,
  validate_read_write_exec_paths,
}
use podlock.Webhook.Valid.{IsValidSpec}
use podlock.Webhook.Validator.{
  validate_binary, validate_binaries, validate_containers, validate_profile, validate_create,
  validate_update,
}
use podlock.Webhook.Accepts.{validate-accepts_iff}
use podlock.Webhook.Defaulter.{default, default_lem}
use podlock.Tests.Data.{good, bad, sh}

errors : LandlockProfile → List FieldError
unfolding validate_profile validate_containers validate_binaries validate_binary
    validate_binary_path validate_paths_from validate_no_overlapping_paths validate_read_only_paths
    validate_read_write_paths validate_read_exec_paths validate_read_write_exec_paths from_list meet
    text_eq clean
errors p = validate_profile list_sets p

good_passes : errors good ≡ []
unfolding errors
good_passes = refl

abbrev at_sh : FieldPath
at_sh = key (key (new_path (codes "spec") (codes "profilesByContainer")) (codes "nginx")) sh

bad_fails :
    errors bad
    ≡ invalid
        (child at_sh (codes "readOnly"))
        (many (codes "/lib" ∷ []))
        (codes "overlapping paths with readExec: [/lib]")
      ∷ invalid
          (index (child at_sh (codes "readWrite")) 0)
          (one (codes "/tmp/../etc"))
          (codes "path contains traversals or is not clean")
      ∷ []
unfolding errors
bad_fails = refl

validate-accepts_iff_example :
    ((validate_create list_sets good ≡ none) ↔ IsValidSpec good.spec)
    × ((validate_update list_sets bad good ≡ none) ↔ IsValidSpec good.spec)
validate-accepts_iff_example = validate-accepts_iff list_sets list_sets-IsLawful bad good

default_lem_example :
    (default list_finalizers good ≡ record good {
      metadata = record (good.metadata) { finalizers = (default list_finalizers good).finalizers };
    })
    × ((f : Text)
        → contains (default list_finalizers good).finalizers f ≡ (
            contains good.finalizers f
            || not (is_being_deleted good) && f == landlock_profile_finalizer))
    × (default list_finalizers (default list_finalizers good) ≡ default list_finalizers good)
default_lem_example = default_lem list_finalizers list_finalizers-IsLawful good
