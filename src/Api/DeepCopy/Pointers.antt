-- ===== src/Api/DeepCopy/Pointers.antt =====
-- zz_generated.deepcopy.go: the copies of the parts of a profile by their pointers, and DeepCopyObject.
use podlock.Prelude.{Option, none, some}
use podlock.Api.Heap.{Heap}
use podlock.Api.DeepCopy.{
  ProfileValue, SpecValue, StatusValue, LandlockProfileValue, LandlockProfileListValue, Cell,
  of_pointer, deep_copy_profile, deep_copy_spec, deep_copy_status, deep_copy, deep_copy_list,
}

-- What a value of runtime.Object points to. The interface itself is nil or one of these.
pub data Object (M N : Type 0) : Type 0 where
  landlock_profile : LandlockProfileValue M → Object M N
  landlock_profile_list : LandlockProfileListValue N → Object M N

module _ {M K : Type 0} where
  -- DeepCopy of Profile
  unfoldable pub deep_copy_of_profile :
      Option ProfileValue → Heap (Cell M K) → Option ProfileValue × Heap (Cell M K)
  unfolding deep_copy_profile
  deep_copy_of_profile = of_pointer deep_copy_profile

  -- DeepCopy of LandlockProfileSpec
  unfoldable pub deep_copy_of_spec :
      Option SpecValue → Heap (Cell M K) → Option SpecValue × Heap (Cell M K)
  unfolding deep_copy_spec
  deep_copy_of_spec = of_pointer deep_copy_spec

  -- DeepCopy of LandlockProfileStatus
  unfoldable pub deep_copy_of_status :
      Option StatusValue → Heap (Cell M K) → Option StatusValue × Heap (Cell M K)
  unfolding deep_copy_status
  deep_copy_of_status = of_pointer deep_copy_status

module _ {M N K : Type 0} where
  -- A copy that is not nil becomes an object, and a copy that is nil becomes the nil interface.
  abbrev boxed :
      {X : Type 0}
      → (X → Object M N)
      → Option X × Heap (Cell M K)
      → Option (Object M N) × Heap (Cell M K)
  boxed box (none, h) = (none, h)
  boxed box (some c, h) = (some (box c), h)

  module _ (copy_meta : M → Heap (Cell M K) → M × Heap (Cell M K)) where
    -- DeepCopyObject of LandlockProfile
    unfoldable pub deep_copy_object :
        Option (LandlockProfileValue M) → Heap (Cell M K) → Option (Object M N) × Heap (Cell M K)
    unfolding deep_copy
    deep_copy_object p h = boxed landlock_profile (deep_copy copy_meta p h)

    -- DeepCopyObject of LandlockProfileList
    unfoldable pub deep_copy_list_object :
        (N → Heap (Cell M K) → N × Heap (Cell M K))
        → Option (LandlockProfileListValue N)
        → Heap (Cell M K)
        → Option (Object M N) × Heap (Cell M K)
    unfolding deep_copy_list
    deep_copy_list_object copy_list_meta l h =
        boxed landlock_profile_list (deep_copy_list copy_meta copy_list_meta l h)
