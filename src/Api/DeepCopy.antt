-- ===== src/Api/DeepCopy.antt =====
-- zz_generated.deepcopy.go: the copies of the API types, over a memory with slices and maps. What a
-- function writes to `out` it returns.
pub mod Layouts
pub mod Fresh
pub mod Pointers
use podlock.Prelude.{ℕ, Option, none, some, List, [], Text}
use podlock.Map.{Map}
use podlock.Api.Heap.{Heap, copy_ref, copy_elements, copy_entries}

-- The structs, where a slice or a map is nil or an address.
pub record ProfileValue : Type 0 where
  pub read_only : Option ℕ
  pub read_write : Option ℕ
  pub read_exec : Option ℕ
  pub read_write_exec : Option ℕ

pub record SpecValue : Type 0 where
  pub profiles_by_container : Option ℕ

pub record StatusValue : Type 0 where
  pub conditions : Option ℕ

-- metav1.TypeMeta
pub record TypeMeta : Type 0 where
  pub kind : Text
  pub api_version : Text

-- `M` is metav1.ObjectMeta.
pub record LandlockProfileValue (M : Type 0) : Type 0 where
  pub type_meta : TypeMeta
  pub metadata : M
  pub spec : SpecValue
  pub status : StatusValue

-- `N` is metav1.ListMeta.
pub record LandlockProfileListValue (N : Type 0) : Type 0 where
  pub type_meta : TypeMeta
  pub list_meta : N
  pub items : Option ℕ

-- What an address holds: a []string, a ProfileByBinary, a map[string]ProfileByBinary, conditions,
-- which hold no address themselves, or the items of a list.
pub data Cell (M K : Type 0) : Type 0 where
  texts : List Text → Cell M K
  profiles : Map ProfileValue → Cell M K
  containers : Map (Option ℕ) → Cell M K
  conditions : List K → Cell M K
  items : List (LandlockProfileValue M) → Cell M K

module _ {M K : Type 0} where
  abbrev pub texts_of : Cell M K → List Text
  texts_of (texts xs) = xs
  texts_of (profiles m) = []
  texts_of (containers m) = []
  texts_of (conditions cs) = []
  texts_of (items ps) = []

  abbrev pub profiles_of : Cell M K → Map ProfileValue
  profiles_of (texts xs) = []
  profiles_of (profiles m) = m
  profiles_of (containers m) = []
  profiles_of (conditions cs) = []
  profiles_of (items ps) = []

  abbrev pub containers_of : Cell M K → Map (Option ℕ)
  containers_of (texts xs) = []
  containers_of (profiles m) = []
  containers_of (containers m) = m
  containers_of (conditions cs) = []
  containers_of (items ps) = []

  abbrev pub conditions_of : Cell M K → List K
  conditions_of (texts xs) = []
  conditions_of (profiles m) = []
  conditions_of (containers m) = []
  conditions_of (conditions cs) = cs
  conditions_of (items ps) = []

  abbrev pub items_of : Cell M K → List (LandlockProfileValue M)
  items_of (texts xs) = []
  items_of (profiles m) = []
  items_of (containers m) = []
  items_of (conditions cs) = []
  items_of (items ps) = ps

  -- The elements of a slice that are values are copied as they are.
  abbrev pub as_is : {C : Type 0} → C → Heap (Cell M K) → C × Heap (Cell M K)
  as_is c h = (c, h)

  abbrev pub copy_texts : Option ℕ → Heap (Cell M K) → Option ℕ × Heap (Cell M K)
  copy_texts = copy_ref texts_of texts as_is

  -- The pattern of DeepCopy: nil for nil, or a new value that DeepCopyInto fills.
  abbrev pub of_pointer :
      {X : Type 0}
      → (X → Heap (Cell M K) → X × Heap (Cell M K))
      → Option X
      → Heap (Cell M K)
      → Option X × Heap (Cell M K)
  of_pointer copy none h = (none, h)
  of_pointer copy (some x) h = let (y, k) = copy x h in (some y, k)

  -- DeepCopyInto of Profile
  unfoldable pub deep_copy_profile : ProfileValue → Heap (Cell M K) → ProfileValue × Heap (Cell M K)
  deep_copy_profile p h =
      let (read_only, h1) = copy_texts p.read_only h in
      let (read_write, h2) = copy_texts p.read_write h1 in
      let (read_exec, h3) = copy_texts p.read_exec h2 in
      let (read_write_exec, h4) = copy_texts p.read_write_exec h3 in
      (
        record {
          read_only = read_only;
          read_write = read_write;
          read_exec = read_exec;
          read_write_exec = read_write_exec;
        },
        h4,
      )

  -- DeepCopy of ProfileByBinary
  unfoldable pub deep_copy_profile_by_binary :
      Option ℕ → Heap (Cell M K) → Option ℕ × Heap (Cell M K)
  unfolding deep_copy_profile
  deep_copy_profile_by_binary = copy_ref profiles_of profiles (copy_entries deep_copy_profile)

  -- DeepCopyInto of LandlockProfileSpec
  unfoldable pub deep_copy_spec : SpecValue → Heap (Cell M K) → SpecValue × Heap (Cell M K)
  unfolding deep_copy_profile_by_binary
  deep_copy_spec s h =
      let (m, k) =
        copy_ref containers_of containers (copy_entries deep_copy_profile_by_binary)
          s.profiles_by_container h in
      (record { profiles_by_container = m }, k)

  -- DeepCopyInto of LandlockProfileStatus, where that of a condition copies values
  unfoldable pub deep_copy_status : StatusValue → Heap (Cell M K) → StatusValue × Heap (Cell M K)
  deep_copy_status s h =
      let (cs, k) = copy_ref conditions_of conditions as_is s.conditions h in
      (record { conditions = cs }, k)

  module _ (copy_meta : M → Heap (Cell M K) → M × Heap (Cell M K)) where
    -- DeepCopyInto of LandlockProfile, where `copy_meta` is that of ObjectMeta
    unfoldable pub deep_copy_into :
        LandlockProfileValue M → Heap (Cell M K) → LandlockProfileValue M × Heap (Cell M K)
    unfolding deep_copy_spec deep_copy_status
    deep_copy_into p h =
        let (metadata, h1) = copy_meta p.metadata h in
        let (spec, h2) = deep_copy_spec p.spec h1 in
        let (status, h3) = deep_copy_status p.status h2 in
        (record p { metadata = metadata; spec = spec; status = status }, h3)

    -- DeepCopy of LandlockProfile
    unfoldable pub deep_copy :
        Option (LandlockProfileValue M)
        → Heap (Cell M K)
        → Option (LandlockProfileValue M) × Heap (Cell M K)
    unfolding deep_copy_into
    deep_copy = of_pointer deep_copy_into

    -- DeepCopyInto of LandlockProfileList, where `copy_list_meta` is that of ListMeta
    unfoldable pub deep_copy_list_into :
        {N : Type 0}
        → (N → Heap (Cell M K) → N × Heap (Cell M K))
        → LandlockProfileListValue N
        → Heap (Cell M K)
        → LandlockProfileListValue N × Heap (Cell M K)
    unfolding deep_copy_into
    deep_copy_list_into copy_list_meta l h =
        let (list_meta, k) = copy_list_meta l.list_meta h in
        let (ps, j) = copy_ref items_of items (copy_elements deep_copy_into) l.items k in
        (record l { list_meta = list_meta; items = ps }, j)

    -- DeepCopy of LandlockProfileList
    unfoldable pub deep_copy_list :
        {N : Type 0}
        → (N → Heap (Cell M K) → N × Heap (Cell M K))
        → Option (LandlockProfileListValue N)
        → Heap (Cell M K)
        → Option (LandlockProfileListValue N) × Heap (Cell M K)
    unfolding deep_copy_list_into
    deep_copy_list copy_list_meta = of_pointer (deep_copy_list_into copy_list_meta)
