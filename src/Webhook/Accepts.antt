-- ===== src/Webhook/Accepts.antt =====
-- The validator accepts the valid profiles and no others.
use podlock.Prelude.{◌≡◌, ◌↔◌, refl, none, some, List, [], ◌∷◌, ◌++◌, Text, All, arith}
use podlock.Map.{Map}
use podlock.Sets.{StringSets, IsLawful}
use podlock.FilePath.Clean.{IsCleanAbs}
use podlock.Api.{Profile, ProfileByBinary, LandlockProfile}
use podlock.Webhook.Errors.{FieldPath, key, FieldError}
use podlock.Webhook.Paths.{
  field_read_only, field_read_write, field_read_exec, field_read_write_exec,
  validate_read_only_paths, validate_read_write_paths, validate_read_exec_paths,
  validate_read_write_exec_paths, validate_no_overlapping_paths,
}
use podlock.Webhook.Valid.{
  Disjoint, IsValidProfile, AreValidBinaries, IsValidSpec, append-eq-nil,
  validate_binary_path-eq-nil, validate_paths_from-eq-nil, check_overlap_new,
}
use podlock.Webhook.Validator.{
  admit, validate_binary, validate_binaries, validate_containers, validate_profile, validate_create,
  validate_update,
}

and_iff {ℓ κ ν μ} :
    {A : Type ℓ} {B : Type κ} {C : Type ν} {D : Type μ} → A ↔ C → B ↔ D → (A × B) ↔ (C × D)
and_iff f g = (λ h. (f.0 h.0, g.0 h.1), λ h. (f.1 h.0, g.1 h.1))

iff_trans {ℓ κ ν} : {A : Type ℓ} {B : Type κ} {C : Type ν} → A ↔ B → B ↔ C → A ↔ C
iff_trans f g = (λ a. g.0 (f.0 a), λ c. f.1 (g.1 c))

append_nil_iff {ℓ κ} :
    {A B : Type κ} {E : Type ℓ} (xs ys : List E)
    → (xs ≡ []) ↔ A
    → (ys ≡ []) ↔ B
    → (xs ++ ys ≡ []) ↔ (A × B)
append_nil_iff xs ys f g = iff_trans (append-eq-nil xs ys) (and_iff f g)

-- The pairs of levels of one profile, in the order of the table, share no path.
abbrev HasNoOverlaps : Profile → Type 0
HasNoOverlaps p =
    Disjoint p.read_only p.read_write
    × (Disjoint p.read_only p.read_exec
        × (Disjoint p.read_only p.read_write_exec
            × (Disjoint p.read_write p.read_exec
                × (Disjoint p.read_write p.read_write_exec
                    × (Disjoint p.read_exec p.read_write_exec × Unit {0})))))

module _ (S : StringSets) (L : IsLawful S) where
  validate_no_overlapping_paths-eq-nil :
      (p : Profile) (fld : FieldPath)
      → (validate_no_overlapping_paths S p fld ≡ []) ↔ HasNoOverlaps p
  unfolding validate_no_overlapping_paths
  validate_no_overlapping_paths-eq-nil p fld =
      append_nil_iff _ _ (check_overlap_new S L field_read_only field_read_write _ _ fld) (
        append_nil_iff _ _ (check_overlap_new S L field_read_only field_read_exec _ _ fld) (
          append_nil_iff _ _ (check_overlap_new S L field_read_only field_read_write_exec _ _ fld) (
            append_nil_iff _ _ (check_overlap_new S L field_read_write field_read_exec _ _ fld) (
              append_nil_iff _ _
                (check_overlap_new S L field_read_write field_read_write_exec _ _ fld)
                (append_nil_iff _ _
                  (check_overlap_new S L field_read_exec field_read_write_exec _ _ fld)
                  (λ h. tt, λ h. refl))))))

  validate_binary-eq-nil :
      (b : Text) (p : Profile) (fld : FieldPath)
      → (validate_binary S b p fld ≡ []) ↔ (IsCleanAbs b × IsValidProfile p)
  unfolding validate_binary validate_read_only_paths validate_read_write_paths
      validate_read_exec_paths validate_read_write_exec_paths
  validate_binary-eq-nil b p fld =
      iff_trans
        (append_nil_iff _ _ (validate_binary_path-eq-nil b fld) (
          append_nil_iff _ _ (validate_no_overlapping_paths-eq-nil p fld) (
            append_nil_iff _ _ (validate_paths_from-eq-nil field_read_only 0 p.read_only fld) (
              append_nil_iff _ _ (validate_paths_from-eq-nil field_read_write 0 p.read_write fld) (
                append_nil_iff _ _ (validate_paths_from-eq-nil field_read_exec 0 p.read_exec fld)
                  (validate_paths_from-eq-nil field_read_write_exec 0 p.read_write_exec fld))))))
        (
          λ (b, (no_overlap, (ro, (rw_paths, (rx, rwx))))).
              let (a1, (a2, (a3, (a4, (a5, (a6, _)))))) = no_overlap in
              (
                b,
                record {
                  read_only = ro;
                  read_write = rw_paths;
                  read_exec = rx;
                  read_write_exec = rwx;
                  ro_rw = a1;
                  ro_rx = a2;
                  ro_rwx = a3;
                  rw_rx = a4;
                  rw_rwx = a5;
                  rx_rwx = a6;
                },
              ),
          λ (b, v). (
            b,
            (
              (v.ro_rw, (v.ro_rx, (v.ro_rwx, (v.rw_rx, (v.rw_rwx, (v.rx_rwx, tt)))))),
              (v.read_only, (v.read_write, (v.read_exec, v.read_write_exec))),
            ),
          ),
        )

  validate_binaries-eq-nil :
      (m : ProfileByBinary) (fld : FieldPath)
      → (validate_binaries S m fld ≡ []) ↔ AreValidBinaries m
  unfolding validate_binaries
  validate_binaries-eq-nil [] fld = (λ h. tt, λ h. refl)
  validate_binaries-eq-nil ((b, p) ∷ m) fld =
      append_nil_iff _ _ (validate_binary-eq-nil b p (key fld b)) (validate_binaries-eq-nil m fld)

  validate_containers-eq-nil :
      (c : Map ProfileByBinary) (fld : FieldPath)
      → (validate_containers S c fld ≡ []) ↔ All (λ e. AreValidBinaries e.1) c
  unfolding validate_containers
  validate_containers-eq-nil [] fld = (λ h. tt, λ h. refl)
  validate_containers-eq-nil ((name, m) ∷ c) fld =
      append_nil_iff _ _ (validate_binaries-eq-nil m (key fld name))
        (validate_containers-eq-nil c fld)

  pub validate_profile-eq-nil :
      (p : LandlockProfile) → (validate_profile S p ≡ []) ↔ IsValidSpec p.spec
  unfolding validate_profile
  validate_profile-eq-nil p =
      elim p.spec.profiles_by_container
        as (λ o.
          ((validate_profile S (record p { spec = record { profiles_by_container = o } })) ≡ [])
          ↔ IsValidSpec (record { profiles_by_container = o })) [
            | none ↦ (λ h. tt, λ h. refl)
            | some c ↦ validate_containers-eq-nil c _
          ]

  admit_iff : (name : Text) (errs : List FieldError) → (admit name errs ≡ none) ↔ (errs ≡ [])
  admit_iff name errs = ground arith

  -- A new profile is admitted exactly when it is valid, and an update exactly when the new object
  -- is valid, whatever the old one was.
  pub validate-accepts_iff :
      (old new : LandlockProfile)
      → ((validate_create S new ≡ none) ↔ IsValidSpec new.spec)
        × ((validate_update S old new ≡ none) ↔ IsValidSpec new.spec)
  unfolding validate_create validate_update
  validate-accepts_iff old new =
      let e =
        iff_trans (admit_iff new.name (validate_profile S new)) (validate_profile-eq-nil new) in
      (e, e)
