-- ===== src/Seal/Rules/Grants.antt =====
-- What the rules grant, against what the profile asks for.
use podlock.Prelude.{
  ◌≡◌, refl, ◌∙◌, Bool, false, ◌||◌, ◌&&◌, List, [], ◌∷◌, ◌++◌, Text, contains, contains-append,
  ◌==◌, text_eq, arith,
}
use podlock.Seal.Access.{AccessRight, AccessFsSet}
use podlock.Seal.Rules.{
  Rule, Stat, stat_failed, is_file, is_dir, path_access, place, sort_paths, process_paths,
}

-- Some rule names the path and has the right.
abbrev pub grants : List Rule → Text → AccessRight → Bool
grants [] p r = false
grants (rule ∷ rules) p r = (contains rule.paths p && rule.access r) || grants rules p r

pub grants-append :
    (xs ys : List Rule) (p : Text) (r : AccessRight)
    → grants (xs ++ ys) p r ≡ (grants xs p r || grants ys p r)
grants-append [] ys p r = refl
grants-append (x ∷ xs) ys p r = ground (arith, grants-append xs ys p r)

grants-path_access :
    (access : AccessFsSet) (paths : List Text) (p : Text) (r : AccessRight)
    → grants (path_access access paths) p r ≡ (contains paths p && access r)
grants-path_access access [] p r = ground arith
grants-path_access access (x ∷ paths) p r = ground arith

-- The right that one of two sets gives to a path, by what the path is.
abbrev pub level : Stat → Bool → Bool → Bool
level stat_failed dir_access file_access = false
level is_dir dir_access file_access = dir_access
level is_file dir_access file_access = file_access

-- The right of a path by the list that it is in.
abbrev sorted : List Text × List Text → Bool → Bool → Text → Bool
sorted (files, dirs) dir_access file_access p =
    (contains files p && file_access) || (contains dirs p && dir_access)

sorted-place :
    (kind : Stat) (x : Text) (found : List Text × List Text) (d f : Bool) (p : Text)
    → sorted (place kind x found) d f p ≡ (sorted found d f p || (p == x && level kind d f))
unfolding place
sorted-place stat_failed x (files, dirs) d f p = ground arith
sorted-place is_dir x (files, dirs) d f p = ground (arith, contains-append dirs (x ∷ []) p)
sorted-place is_file x (files, dirs) d f p = ground (arith, contains-append files (x ∷ []) p)

module _ (stat : Text → Stat) where
  level_of :
      (p x : Text) (d f : Bool) → (p == x && level (stat x) d f) ≡ (p == x && level (stat p) d f)
  level_of p x d f = ground arith

  or_and : (a b c m : Bool) → (a || (b && m)) || (c && m) ≡ (a || ((b || c) && m))
  or_and a b c m = ground arith

  sorted-sort_paths :
      (found : List Text × List Text) (paths : List Text) (d f : Bool) (p : Text)
      → sorted (sort_paths stat found paths) d f p
        ≡ (sorted found d f p || (contains paths p && level (stat p) d f))
  unfolding sort_paths
  sorted-sort_paths found [] d f p = ground arith
  sorted-sort_paths found (x ∷ paths) d f p =
      sorted-sort_paths (place (stat x) x found) paths d f p
      ∙ rw (sorted-place (stat x) x found d f p, level_of p x d f)
          (or_and (sorted found d f p) (p == x) (contains paths p) (level (stat p) d f))

  pub grants-process_paths :
      (paths : List Text) (d f : AccessFsSet) (p : Text) (r : AccessRight)
      → grants (process_paths stat paths d f) p r ≡ (contains paths p && level (stat p) (d r) (f r))
  unfolding process_paths
  grants-process_paths paths d f p r =
      let found = sort_paths stat ([], []) paths in
      grants-append (path_access f found.0) (path_access d found.1) p r
      ∙ rw (grants-path_access f found.0 p r, grants-path_access d found.1 p r)
          (sorted-sort_paths ([], []) paths (d r) (f r) p)
