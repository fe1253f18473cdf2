-- ===== src/Webhook/Paths.antt =====
-- paths.go
use podlock.Prelude.{
  ℕ, suc, Bool, true, false, List, [], ◌∷◌, ◌++◌, Text, codes, ltb, ◌==◌, text_eq, if◌then◌else◌,
}
use podlock.Strings.{join_with}
use podlock.FilePath.{is_abs, clean}
use podlock.Sets.{StringSets}
use podlock.Api.{Profile}
use podlock.Webhook.Errors.{FieldPath, child, index, FieldError, one, many, invalid}

abbrev pub field_read_only : Text
field_read_only = codes "readOnly"

abbrev pub field_read_exec : Text
field_read_exec = codes "readExec"

abbrev pub field_read_write_exec : Text
field_read_write_exec = codes "readWriteExec"

abbrev pub field_read_write : Text
field_read_write = codes "readWrite"

-- append(allErrs, err) under a test
abbrev pub report_unless : Bool → FieldError → List FieldError
report_unless true e = []
report_unless false e = e ∷ []

unfoldable pub validate_binary_path : Text → FieldPath → List FieldError
validate_binary_path path fld =
    report_unless (is_abs path) (invalid fld (one path) (codes "path must be absolute"))
    ++ report_unless (clean path == path)
        (invalid fld (one path) (codes "path contains traversals or is not clean"))

-- `for i, path := range …`, from index `i` on, of the list in the field `name`
unfoldable pub validate_paths_from : Text → ℕ → List Text → FieldPath → List FieldError
validate_paths_from name i [] fld = []
validate_paths_from name i (path ∷ paths) fld =
    validate_binary_path path (index (child fld name) i)
    ++ validate_paths_from name (suc i) paths fld

unfoldable pub validate_read_only_paths : Profile → FieldPath → List FieldError
validate_read_only_paths p fld = validate_paths_from field_read_only 0 p.read_only fld

unfoldable pub validate_read_write_paths : Profile → FieldPath → List FieldError
validate_read_write_paths p fld = validate_paths_from field_read_write 0 p.read_write fld

unfoldable pub validate_read_exec_paths : Profile → FieldPath → List FieldError
validate_read_exec_paths p fld = validate_paths_from field_read_exec 0 p.read_exec fld

unfoldable pub validate_read_write_exec_paths : Profile → FieldPath → List FieldError
validate_read_write_exec_paths p fld =
    validate_paths_from field_read_write_exec 0 p.read_write_exec fld

-- fmt.Sprintf("overlapping paths with %s: %v", field, paths)
abbrev pub overlap_message : Text → List Text → Text
overlap_message field paths =
    codes "overlapping paths with "
    ++ (field ++ (codes ": [" ++ (join_with b' ' paths ++ codes "]")))

module _ (S : StringSets) where
  -- One element of the table of overlaps.
  pub record Overlap : Type 0 where
    pub field1 : Text
    pub set1 : S.Set
    pub field2 : Text
    pub set2 : S.Set

  abbrev pub overlap : Text → S.Set → Text → S.Set → Overlap
  overlap f s g t = record { field1 = f; set1 = s; field2 = g; set2 = t }

  -- The table of the pairs of access levels.
  unfoldable pub overlaps : Profile → List Overlap
  overlaps p =
      let read_only = S.new p.read_only in
      let read_write = S.new p.read_write in
      let read_exec = S.new p.read_exec in
      let read_write_exec = S.new p.read_write_exec in
      overlap field_read_only read_only field_read_write read_write
      ∷ overlap field_read_only read_only field_read_exec read_exec
      ∷ overlap field_read_only read_only field_read_write_exec read_write_exec
      ∷ overlap field_read_write read_write field_read_exec read_exec
      ∷ overlap field_read_write read_write field_read_write_exec read_write_exec
      ∷ overlap field_read_exec read_exec field_read_write_exec read_write_exec
      ∷ []

  unfoldable pub check_overlap : Overlap → FieldPath → List FieldError
  check_overlap o fld =
      let shared = S.intersection o.set1 o.set2 in
      if ltb 0 (S.len shared)
      then invalid (child fld o.field1) (many (S.list o.set1))
          (overlap_message o.field2 (S.list shared))
        ∷ []
      else []

  unfoldable pub check_overlaps : List Overlap → FieldPath → List FieldError
  check_overlaps [] fld = []
  check_overlaps (o ∷ os) fld = check_overlap o fld ++ check_overlaps os fld

  unfoldable pub validate_no_overlapping_paths : Profile → FieldPath → List FieldError
  unfolding overlaps check_overlap check_overlaps
  validate_no_overlapping_paths p fld = check_overlaps (overlaps p) fld
