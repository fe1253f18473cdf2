-- ===== src/Api/DeepCopy/Fresh.antt =====
-- DeepCopy makes a copy that shares nothing with the original.
use podlock.Prelude.{◌≡◌, refl, ℕ, ◌≤◌, ◌<◌, Option, List, Text}
use podlock.Map.{Map}
use podlock.Api.Heap.{
  Heap, copy_ref, copy_entries, Extends-refl, Extends-trans, Layout, IsValid, IsCopier,
  Copied-later, Copied-IsApart, copy_elements,
}
use podlock.Api.DeepCopy.{
  ProfileValue, SpecValue, StatusValue, TypeMeta, LandlockProfileValue, LandlockProfileListValue,
  items, items_of, deep_copy_list_into, Cell, texts, profiles, containers, conditions, texts_of,
  profiles_of, containers_of, conditions_of, as_is, copy_texts, deep_copy_profile,
  deep_copy_profile_by_binary, deep_copy_spec, deep_copy_status, deep_copy_into,
}
use podlock.Api.DeepCopy.Layouts.{
  value_layout, list_layout, copy_elements-IsCopier, entries_layout, ref_layout, via, both,
  via-Copied, both-Copied, copy_next, copy_entries-IsCopier, copy_ref-IsCopier,
}

-- What the values stand for, nil or not.
abbrev pub ProfileView : Type 0
ProfileView = Option (List Text) × (Option (List Text) × (Option (List Text) × Option (List Text)))

abbrev pub SpecView : Type 0
SpecView = Option (Map (Option (Map ProfileView)))

abbrev pub LandlockProfileView : Type 0 → Type 0 → Type 0
LandlockProfileView B K = TypeMeta × (B × (SpecView × Option (List K)))

module _ {M K : Type 0} where
  as_is-IsCopier : (C : Type 0) → IsCopier (value_layout {Cell = Cell M K} C) as_is
  as_is-IsCopier C h c valid = record { extends = Extends-refl h; fresh = tt; same = refl }

  abbrev pub texts_layout : Layout (Cell M K) (Option ℕ) (Option (List Text))
  texts_layout = ref_layout texts_of (value_layout (List Text))

  pub copy_texts-IsCopier : IsCopier texts_layout copy_texts
  copy_texts-IsCopier =
      copy_ref-IsCopier texts_of (value_layout (List Text)) texts as_is (λ xs. refl)
        (as_is-IsCopier (List Text))

  abbrev pub profile_layout : Layout (Cell M K) ProfileValue ProfileView
  profile_layout = both (via (λ (p : ProfileValue). p.read_only) texts_layout) (
      both (via (λ (p : ProfileValue). p.read_write) texts_layout) (
        both (via (λ (p : ProfileValue). p.read_exec) texts_layout)
          (via (λ (p : ProfileValue). p.read_write_exec) texts_layout)))

  deep_copy_profile-IsCopier : IsCopier profile_layout deep_copy_profile
  unfolding deep_copy_profile
  deep_copy_profile-IsCopier h p (v1, (v2, (v3, v4))) =
      let q = (deep_copy_profile p h).0 in
      let h1 = (copy_texts p.read_only h).1 in
      let h2 = (copy_texts p.read_write h1).1 in
      let h3 = (copy_texts p.read_exec h2).1 in
      let h4 = (copy_texts p.read_write_exec h3).1 in
      let c1 = copy_texts-IsCopier h p.read_only v1 in
      let (c2, e2) =
        copy_next texts_layout copy_texts h h1 p.read_write copy_texts-IsCopier c1.extends v2 in
      let (c3, e3) =
        copy_next texts_layout copy_texts h h2 p.read_exec copy_texts-IsCopier c2.extends v3 in
      let (c4, e4) =
        copy_next texts_layout copy_texts h h3 p.read_write_exec copy_texts-IsCopier c3.extends
          v4 in
      let e34 = Extends-trans h2 h3 h4 e3 e4 in
      let e24 = Extends-trans h1 h2 h4 e2 e34 in
      both-Copied _ _ h h4 p q
        (via-Copied (λ (x : ProfileValue). x.read_only) texts_layout h h4 p q
          (Copied-later texts_layout h h1 h4 p.read_only q.read_only c1 e24))
        (both-Copied _ _ h h4 p q
          (via-Copied (λ (x : ProfileValue). x.read_write) texts_layout h h4 p q
            (Copied-later texts_layout h h2 h4 p.read_write q.read_write c2 e34))
          (both-Copied _ _ h h4 p q
            (via-Copied (λ (x : ProfileValue). x.read_exec) texts_layout h h4 p q
              (Copied-later texts_layout h h3 h4 p.read_exec q.read_exec c3 e4))
            (via-Copied (λ (x : ProfileValue). x.read_write_exec) texts_layout h h4 p q c4)))

  abbrev pub by_binary_layout : Layout (Cell M K) (Option ℕ) (Option (Map ProfileView))
  by_binary_layout = ref_layout profiles_of (entries_layout profile_layout)

  deep_copy_profile_by_binary-IsCopier : IsCopier by_binary_layout deep_copy_profile_by_binary
  unfolding deep_copy_profile_by_binary
  deep_copy_profile_by_binary-IsCopier =
      copy_ref-IsCopier profiles_of (entries_layout profile_layout) profiles
        (copy_entries deep_copy_profile) (λ m. refl)
        (copy_entries-IsCopier profile_layout deep_copy_profile deep_copy_profile-IsCopier)

  abbrev containers_layout : Layout (Cell M K) (Option ℕ) SpecView
  containers_layout = ref_layout containers_of (entries_layout by_binary_layout)

  abbrev pub spec_layout : Layout (Cell M K) SpecValue SpecView
  spec_layout = via (λ (s : SpecValue). s.profiles_by_container) containers_layout

  deep_copy_spec-IsCopier : IsCopier spec_layout deep_copy_spec
  unfolding deep_copy_spec
  deep_copy_spec-IsCopier h s valid =
      via-Copied (λ (x : SpecValue). x.profiles_by_container) containers_layout h
        (deep_copy_spec s h).1 s (deep_copy_spec s h).0
        (copy_ref-IsCopier containers_of (entries_layout by_binary_layout) containers
          (copy_entries deep_copy_profile_by_binary) (λ m. refl)
          (copy_entries-IsCopier by_binary_layout deep_copy_profile_by_binary
            deep_copy_profile_by_binary-IsCopier)
          h s.profiles_by_container valid)

  abbrev conditions_layout : Layout (Cell M K) (Option ℕ) (Option (List K))
  conditions_layout = ref_layout conditions_of (value_layout (List K))

  abbrev pub status_layout : Layout (Cell M K) StatusValue (Option (List K))
  status_layout = via (λ (s : StatusValue). s.conditions) conditions_layout

  deep_copy_status-IsCopier : IsCopier status_layout deep_copy_status
  unfolding deep_copy_status
  deep_copy_status-IsCopier h s valid =
      via-Copied (λ (x : StatusValue). x.conditions) conditions_layout h (deep_copy_status s h).1 s
        (deep_copy_status s h).0
        (copy_ref-IsCopier conditions_of (value_layout (List K)) conditions as_is (λ cs. refl)
          (as_is-IsCopier (List K)) h s.conditions valid)

  module _ {B : Type 0} (L : Layout (Cell M K) M B) where
    abbrev pub landlock_profile_layout :
        Layout (Cell M K) (LandlockProfileValue M) (LandlockProfileView B K)
    landlock_profile_layout =
        both (via (λ (p : LandlockProfileValue M). p.type_meta) (value_layout TypeMeta)) (
          both (via (λ (p : LandlockProfileValue M). p.metadata) L) (
            both (via (λ (p : LandlockProfileValue M). p.spec) spec_layout)
              (via (λ (p : LandlockProfileValue M). p.status) status_layout)))

    module _ (copy_meta : M → Heap (Cell M K) → M × Heap (Cell M K)) where
      deep_copy_into-IsCopier :
          IsCopier L copy_meta → IsCopier landlock_profile_layout (deep_copy_into copy_meta)
      unfolding deep_copy_into
      deep_copy_into-IsCopier copies h p (_, (v1, (v2, v3))) =
          let q = (deep_copy_into copy_meta p h).0 in
          let h1 = (copy_meta p.metadata h).1 in
          let h2 = (deep_copy_spec p.spec h1).1 in
          let h3 = (deep_copy_status p.status h2).1 in
          let c1 = copies h p.metadata v1 in
          let (c2, e2) =
            copy_next spec_layout deep_copy_spec h h1 p.spec deep_copy_spec-IsCopier c1.extends
              v2 in
          let (c3, e3) =
            copy_next status_layout deep_copy_status h h2 p.status deep_copy_status-IsCopier
              c2.extends v3 in
          both-Copied _ _ h h3 p q (record { extends = c3.extends; fresh = tt; same = refl })
            (both-Copied _ _ h h3 p q
              (via-Copied (λ (x : LandlockProfileValue M). x.metadata) L h h3 p q
                (Copied-later L h h1 h3 p.metadata q.metadata c1 (Extends-trans h1 h2 h3 e2 e3)))
              (both-Copied _ _ h h3 p q
                (via-Copied (λ (x : LandlockProfileValue M). x.spec) spec_layout h h3 p q
                  (Copied-later spec_layout h h2 h3 p.spec q.spec c2 e3))
                (via-Copied (λ (x : LandlockProfileValue M). x.status) status_layout h h3 p q c3)))

      -- Let the profile lead to addresses in use only, and let DeepCopyInto of its metadata make a
      -- deep copy. Then what DeepCopyInto makes of the profile stands for the same value, nil slices
      -- and maps included, and no write changes both: after any writes to addresses that were in use
      -- before, such as those that the original leads to, the copy has still this value, and after
      -- any writes to the addresses that have come into use, the original has.
      pub deep_copy_into-IsApart :
          (h : Heap (Cell M K)) (p : LandlockProfileValue M)
          → IsCopier L copy_meta
          → IsValid landlock_profile_layout h p
          → let (q, k) = deep_copy_into copy_meta p h in
            (i j : Heap (Cell M K))
            → ((a : ℕ) → h.next ≤ a → a < k.next → i.cell a ≡ k.cell a)
            → ((a : ℕ) → a < h.next → j.cell a ≡ k.cell a)
            → (landlock_profile_layout.view i q ≡ landlock_profile_layout.view h p)
              × (landlock_profile_layout.view j p ≡ landlock_profile_layout.view h p)
      deep_copy_into-IsApart h p copies valid i j =
          Copied-IsApart landlock_profile_layout h (deep_copy_into copy_meta p h).1 i j p
            (deep_copy_into copy_meta p h).0 (deep_copy_into-IsCopier copies h p valid) valid

      module _ {N D : Type 0} (LN : Layout (Cell M K) N D)
          (copy_list_meta : N → Heap (Cell M K) → N × Heap (Cell M K)) where
        abbrev items_layout : Layout (Cell M K) (Option ℕ) (Option (List (LandlockProfileView B K)))
        items_layout = ref_layout items_of (list_layout landlock_profile_layout)

        abbrev landlock_profile_list_layout :
            Layout
              (Cell M K)
              (LandlockProfileListValue N)
              (TypeMeta × (D × Option (List (LandlockProfileView B K))))
        landlock_profile_list_layout =
            both (via (λ (l : LandlockProfileListValue N). l.type_meta) (value_layout TypeMeta)) (
              both (via (λ (l : LandlockProfileListValue N). l.list_meta) LN)
                (via (λ (l : LandlockProfileListValue N). l.items) items_layout))

        -- The copy of a list of profiles is deep too, if those of the metadata are.
        deep_copy_list_into-IsCopier :
            IsCopier L copy_meta
            → IsCopier LN copy_list_meta
            → IsCopier landlock_profile_list_layout (deep_copy_list_into copy_meta copy_list_meta)
        unfolding deep_copy_list_into
        deep_copy_list_into-IsCopier copies copies_list h l (_, (v1, v2)) =
            let m = (deep_copy_list_into copy_meta copy_list_meta l h).0 in
            let k = (copy_list_meta l.list_meta h).1 in
            let copy = copy_ref items_of items (copy_elements (deep_copy_into copy_meta)) in
            let j = (copy l.items k).1 in
            let c1 = copies_list h l.list_meta v1 in
            let (c2, e2) =
              copy_next items_layout copy h k l.items
                (copy_ref-IsCopier items_of (list_layout landlock_profile_layout) items
                  (copy_elements (deep_copy_into copy_meta)) (λ ps. refl)
                  (copy_elements-IsCopier landlock_profile_layout (deep_copy_into copy_meta)
                    (deep_copy_into-IsCopier copies)))
                c1.extends v2 in
            both-Copied _ _ h j l m (record { extends = c2.extends; fresh = tt; same = refl })
              (both-Copied _ _ h j l m
                (via-Copied (λ (x : LandlockProfileListValue N). x.list_meta) LN h j l m
                  (Copied-later LN h k j l.list_meta m.list_meta c1 e2))
                (via-Copied (λ (x : LandlockProfileListValue N). x.items) items_layout h j l m c2))
