-- ===== src/Seal/Rules/LeastPrivilege.antt =====
-- The rules give each path exactly the rights of its levels.
use podlock.Prelude.{
  ◌≡◌, refl, ◌∙◌, Bool, true, false, ◌||◌, ◌&&◌, List, [], ◌∷◌, Text, contains, ◌==◌, text_eq,
  arith, if◌then◌else◌,
}
use podlock.Fallible.{Result, ok, err}
use podlock.Api.{Profile}
use podlock.Seal.Access.{
  AccessRight, execute, write_file, read_file, read_dir, truncate, right_eq, access_file_r,
  access_file_rw, access_file_rx, access_file_rwx, access_dir_r, access_dir_rw, access_dir_rx,
  access_dir_rwx,
}
use podlock.Seal.Rules.{
  Rule, Stat, stat_failed, is_file, is_dir, profile_to_landlock_rules, rules_for_binary_to_run,
  rules_for_files,
}
use podlock.Seal.Rules.Grants.{grants, grants-append, level, grants-process_paths}

-- The rights that levels are meant to give: reading at every level, execution at the levels with
-- `exec`, writing at those with `write`. A directory can be listed at every level, and its entries
-- can be made, moved and removed at those with `write`. A path that is not there gets none.
abbrev pub meant :
    Stat → AccessRight → (read_only read_write read_exec read_write_exec : Bool) → Bool
meant stat_failed r ro rw_ rx rwx = false
meant k execute ro rw_ rx rwx = rx || rwx
meant k read_file ro rw_ rx rwx = ro || rw_ || rx || rwx
meant k write_file ro rw_ rx rwx = rw_ || rwx
meant k truncate ro rw_ rx rwx = rw_ || rwx
meant is_dir read_dir ro rw_ rx rwx = ro || rw_ || rx || rwx
meant is_file read_dir ro rw_ rx rwx = false
meant is_dir r ro rw_ rx rwx = rw_ || rwx
meant is_file r ro rw_ rx rwx = false

-- The levels of the code, one set of flags after the other.
abbrev given : Stat → AccessRight → (read_only read_write read_exec read_write_exec : Bool) → Bool
given k r ro rw_ rx rwx =
    (ro && level k (access_dir_r r) (access_file_r r))
    || ((rw_ && level k (access_dir_rw r) (access_file_rw r))
        || ((rx && level k (access_dir_rx r) (access_file_rx r))
            || (rwx && level k (access_dir_rwx r) (access_file_rwx r))))

given-meant :
    (k : Stat) (r : AccessRight) (ro rw_ rx rwx : Bool)
    → given k r ro rw_ rx rwx ≡ meant k r ro rw_ rx rwx
unfolding right_eq access_dir_rwx access_file_rwx access_dir_rx access_dir_rw
given-meant stat_failed r ro rw_ rx rwx = ground arith
given-meant is_dir execute ro rw_ rx rwx = ground arith
given-meant _ _ ro rw_ rx rwx = ground arith

given-read_exec :
    (k : Stat) (r : AccessRight) (rx : Bool)
    → (rx && level k (access_dir_rx r) (access_file_rx r)) ≡ given k r false false rx false
given-read_exec k r rx = ground arith

module _ (stat : Text → Stat) where
  -- The rules of a profile grant a right on a path that they name exactly where the levels of the
  -- path are meant to give it: in particular no write outside the lists with `write`, and no
  -- execution outside those with `exec`.
  pub grants-profile :
      (profile : Profile) (p : Text) (r : AccessRight)
      → grants (profile_to_landlock_rules stat profile) p r
        ≡ meant
            (stat p)
            r
            (contains profile.read_only p)
            (contains profile.read_write p)
            (contains profile.read_exec p)
            (contains profile.read_write_exec p)
  unfolding profile_to_landlock_rules
  grants-profile profile p r =
      simp (grants-append, grants-process_paths stat) (given-meant (stat p) r _ _ _ _)

  module _ (binary : Text) (add_libs : Bool) (discover : Text → Result (List Text)) where
    abbrev pub libraries : Result (List Text)
    libraries = if add_libs then discover binary else ok []

    -- What the rules of a run are, or why there are none.
    abbrev pub RunsUnder : Result (List Rule) → Type 0
    RunsUnder (ok rules) =
        (libs : List Text) × (libraries ≡ ok libs)
        × ((p : Text) (r : AccessRight)
            → grants rules p r
              ≡ meant (stat p) r false false (p == binary || contains libs p) false)
    RunsUnder (err e) = (add_libs ≡ true) × (discover binary ≡ err e)

    rules_for_files-RunsUnder :
        (o : Result (List Text)) → libraries ≡ o → RunsUnder (rules_for_files stat binary o)
    rules_for_files-RunsUnder (err e) h = ground arith
    rules_for_files-RunsUnder (ok libs) h = (
      libs,
      h,
      λ p r.
          grants-process_paths stat (binary ∷ libs) access_dir_rx access_file_rx p r
          ∙ given-read_exec (stat p) r (p == binary || contains libs p)
          ∙ given-meant (stat p) r false false (p == binary || contains libs p) false,
    )

    -- The rules for the binary to run grant reading and execution of the binary and of the
    -- libraries that were discovered, listing if these are directories, and nothing else. There
    -- are none, but an error, exactly when the discovery is asked for and fails.
    pub rules_for_binary_to_run_lem :
        RunsUnder (rules_for_binary_to_run stat binary add_libs discover)
    unfolding rules_for_binary_to_run
    rules_for_binary_to_run_lem = rules_for_files-RunsUnder libraries refl
