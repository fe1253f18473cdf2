-- ===== src/Tests/DeepCopy.antt =====
-- A deep copy of a profile, before its finalizer is removed.
use podlock.Prelude.{
  ◌≡◌, ◌≢◌, refl, ℕ, ◌≤◌, ◌<◌, Option, none, some, [], ◌∷◌, Text, codes, ◌==◌, nat_eq, arith,
  if◌then◌else◌,
}
use podlock.Api.{landlock_profile_finalizer}
use podlock.Api.Heap.{Heap, IsValid, alloc}
use podlock.Api.DeepCopy.{
  LandlockProfileValue, Cell, texts, profiles, containers, copy_texts, deep_copy_into,
}
use podlock.Api.DeepCopy.Pointers.{Object, landlock_profile, deep_copy_object}
use podlock.Api.DeepCopy.Layouts.{list_layout, ref_layout}
use podlock.Api.DeepCopy.Fresh.{
  texts_layout, copy_texts-IsCopier, landlock_profile_layout, deep_copy_into-IsApart,
}

abbrev memory : Heap (Cell (Option ℕ) Text)
memory = record {
  next = 4;
  cell = λ a.
      if a == 0
      then texts (landlock_profile_finalizer ∷ [])
      else if a == 1
      then texts (codes "/etc" ∷ [])
      else if a == 2
      then profiles (
          (
            codes "/usr/bin/curl",
            record {
              read_only = some 1;
              read_write = none;
              read_exec = none;
              read_write_exec = none;
            },
          )
          ∷ [])
      else containers ((codes "nginx", some 2) ∷ []);
}

-- A profile whose metadata are its finalizers.
abbrev profile : LandlockProfileValue (Option ℕ)
profile = record {
  type_meta = record { kind = codes "LandlockProfile"; api_version = codes "v1alpha1" };
  metadata = some 0;
  spec = record { profiles_by_container = some 3 };
  status = record { conditions = none };
}

abbrev made : LandlockProfileValue (Option ℕ) × Heap (Cell (Option ℕ) Text)
made = deep_copy_into copy_texts profile memory

new_addresses : made.0.metadata ≡ some 4
unfolding deep_copy_into alloc
new_addresses = refl

-- The type of the lists is not determined by a profile.
abbrev object : Option (LandlockProfileValue (Option ℕ)) → Option (Object (Option ℕ) Text)
object p = (deep_copy_object {N = Text} copy_texts p memory).0

copied_object :
    (object (some profile) ≡ some (landlock_profile made.0))
    × ((copied : Object (Option ℕ) Text) → object none ≢ some copied)
unfolding deep_copy_object
copied_object = (refl, λ copied e. cc)

-- The finalizer is removed in place.
abbrev removed : Heap (Cell (Option ℕ) Text)
removed = record (made.1) { cell = λ a. if a == 0 then texts [] else made.1.cell a }

profile-IsValid : IsValid (landlock_profile_layout texts_layout) memory profile
unfolding ref_layout list_layout nat_eq
profile-IsValid = (
  tt,
  (
    (omega arith, omega arith, tt),
    (
      (
        omega arith,
        omega arith,
        (
          (
            tt,
            (
              omega arith,
              omega arith,
              ((tt, ((omega arith, omega arith, tt), (tt, (tt, tt)))), tt),
            ),
          ),
          tt,
        ),
      ),
      tt,
    ),
  ),
)

outside_kept : (a : ℕ) → memory.next ≤ a → a < made.1.next → removed.cell a ≡ made.1.cell a
outside_kept a above below = ground arith

deep_copy_into-IsApart_example :
    let L = landlock_profile_layout texts_layout in
    (L.view removed made.0 ≡ L.view memory profile)
    × (L.view made.1 profile ≡ L.view memory profile)
deep_copy_into-IsApart_example =
    deep_copy_into-IsApart texts_layout copy_texts memory profile copy_texts-IsCopier
      profile-IsValid removed made.1 outside_kept (λ a below. refl)
