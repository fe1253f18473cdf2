-- ===== src/Api.antt =====
-- The LandlockProfile resource (api/v1alpha1/landlockprofile_types.go).
-- A nil slice and an empty one are one value here; a nil map is `none` where the code tests for it.
-- The status of a profile is only copied, and stands in Api.DeepCopy.
pub mod Heap
pub mod DeepCopy
pub mod Scheme
use podlock.Prelude.{ℕ, Bool, true, false, Option, none, some, List, Text, codes}
use podlock.Map.{Map}

pub record Profile : Type 0 where
  pub read_only : List Text
  pub read_write : List Text
  pub read_exec : List Text
  pub read_write_exec : List Text

abbrev pub ProfileByBinary : Type 0
ProfileByBinary = Map Profile

pub record LandlockProfileSpec : Type 0 where
  pub profiles_by_container : Option (Map ProfileByBinary)

-- The part of metav1.ObjectMeta that the program reads or writes.
pub record ObjectMeta : Type 0 where
  pub name : Text
  pub namespace : Text
  pub deletion_timestamp : Option ℕ
  pub finalizers : List Text

pub record LandlockProfile : Type 0 where
  pub metadata : ObjectMeta
  pub open metadata use *
  pub spec : LandlockProfileSpec

abbrev pub landlock_profile_finalizer : Text
landlock_profile_finalizer = codes "podlock.kubewarden.io/landlockprofile"

-- DeletionTimestamp.IsZero(), negated
unfoldable pub is_being_deleted : LandlockProfile → Bool
is_being_deleted p = elim p.deletion_timestamp [ none ↦ false | some t ↦ true ]
