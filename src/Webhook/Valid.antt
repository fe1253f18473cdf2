-- ===== src/Webhook/Valid.antt =====
-- Which profiles are valid, without reference to the checks, and which lists the checks accept.
use podlock.Prelude.{
  ℕ, suc, ◌≡◌, ◌↔◌, refl, true, false, none, some, List, [], ◌∷◌, ◌++◌, Text, All, contains, length,
  text_eq, arith,
}
use podlock.Sets.{StringSets, IsLawful}
use podlock.FilePath.Clean.{IsCleanAbs, IsCleanAbs-iff}
use podlock.Api.{Profile, ProfileByBinary, LandlockProfileSpec}
use podlock.Webhook.Errors.{FieldPath, child, index}
use podlock.Webhook.Paths.{
  validate_binary_path, validate_paths_from, Overlap, overlap, check_overlap,
}

abbrev pub Disjoint : List Text → List Text → Type 0
Disjoint xs ys = (x : Text) → contains xs x ≡ true → contains ys x ≡ false

-- Every path is absolute and clean, and no path has two access levels.
pub record IsValidProfile (p : Profile) : Type 0 where
  pub read_only : All IsCleanAbs p.read_only
  pub read_write : All IsCleanAbs p.read_write
  pub read_exec : All IsCleanAbs p.read_exec
  pub read_write_exec : All IsCleanAbs p.read_write_exec
  pub ro_rw : Disjoint p.read_only p.read_write
  pub ro_rx : Disjoint p.read_only p.read_exec
  pub ro_rwx : Disjoint p.read_only p.read_write_exec
  pub rw_rx : Disjoint p.read_write p.read_exec
  pub rw_rwx : Disjoint p.read_write p.read_write_exec
  pub rx_rwx : Disjoint p.read_exec p.read_write_exec

abbrev pub AreValidBinaries : ProfileByBinary → Type 0
AreValidBinaries = All (λ e. IsCleanAbs e.0 × IsValidProfile e.1)

abbrev pub IsValidSpec : LandlockProfileSpec → Type 0
IsValidSpec spec = elim spec.profiles_by_container [
  | none ↦ Unit
  | some containers ↦ All (λ c. AreValidBinaries c.1) containers
]

pub append-eq-nil {ℓ} : {A : Type ℓ} (xs ys : List A) → (xs ++ ys ≡ []) ↔ ((xs ≡ []) × (ys ≡ []))
append-eq-nil [] ys = (λ h. (refl, h), λ h. h.1)
append-eq-nil (x ∷ xs) ys = (λ h. absurd (cc), λ h. absurd (cc))

pub validate_binary_path-eq-nil :
    (p : Text) (fld : FieldPath) → (validate_binary_path p fld ≡ []) ↔ IsCleanAbs p
unfolding validate_binary_path
validate_binary_path-eq-nil p fld =
    (λ h. (IsCleanAbs-iff p).1 (ground arith), λ c. ground (arith, (IsCleanAbs-iff p).0 c))

pub validate_paths_from-eq-nil :
    (name : Text) (i : ℕ) (ps : List Text) (fld : FieldPath)
    → (validate_paths_from name i ps fld ≡ []) ↔ All IsCleanAbs ps
unfolding validate_paths_from
validate_paths_from-eq-nil name i [] fld = (λ h. tt, λ h. refl)
validate_paths_from-eq-nil name i (p ∷ ps) fld =
    let here = validate_binary_path-eq-nil p (index (child fld name) i) in
    let later = validate_paths_from-eq-nil name (suc i) ps fld in
    let split =
      append-eq-nil (validate_binary_path p (index (child fld name) i))
        (validate_paths_from name (suc i) ps fld) in
    (λ h. (here.0 (split.0 h).0, later.0 (split.0 h).1), λ h. split.1 (here.1 h.0, later.1 h.1))

-- A list is empty exactly when nothing is in it.
length-eq-zero_iff : (xs : List Text) → (length xs ≡ 0) ↔ ((x : Text) → contains xs x ≡ false)
length-eq-zero_iff [] = (λ h x. refl, λ h. refl)
length-eq-zero_iff (x ∷ xs) = (λ h. absurd (omega arith), λ h. ground (arith, h x))

module _ (S : StringSets) (L : IsLawful S) where
  pub check_overlap-eq-nil :
      (o : Overlap S) (fld : FieldPath)
      → (check_overlap S o fld ≡ []) ↔ Disjoint (S.list o.set1) (S.list o.set2)
  unfolding check_overlap
  check_overlap-eq-nil o fld =
      let shared = S.intersection o.set1 o.set2 in
      let none_shared = length-eq-zero_iff (S.list shared) in
      let size = L.len-list shared in
      (
        λ h x.
            let empty : length (S.list shared) ≡ 0 = ground arith in
            ground (arith, L.list-intersection o.set1 o.set2 x, none_shared.0 empty x),
        λ d.
            let empty : length (S.list shared) ≡ 0 =
              none_shared.1 (λ x. ground (arith, L.list-intersection o.set1 o.set2 x, d x)) in
            ground arith,
      )

  pub check_overlap_new :
      (f g : Text) (xs ys : List Text) (fld : FieldPath)
      → (check_overlap S (overlap S f (S.new xs) g (S.new ys)) fld ≡ []) ↔ Disjoint xs ys
  check_overlap_new f g xs ys fld =
      let e = check_overlap-eq-nil (overlap S f (S.new xs) g (S.new ys)) fld in
      (
        λ h x. rw (← L.list-new xs x, ← L.list-new ys x) (e.0 h x),
        λ d. e.1 (λ x. rw (L.list-new xs x, L.list-new ys x) (d x)),
      )
