-- ===== src/Seal/Cli/Given.antt =====
-- Whether a command line gives paths, and where.
use podlock.Prelude.{
  ◌≡◌, ◌≢◌, ◌⊎◌, inl, inr, refl, ◌∙◌, true, false, List, [], ◌∷◌, Text, contains, arith, text_eq,
}
use podlock.Sets.{StringSets}
use podlock.Seal.Flags.{Flags, list_of}
use podlock.Seal.Cli.{Process, has_paths, is_nonempty}
use podlock.Seal.Cli.PathFlags.{
  Level, read_only, read_exec, read_write, read_write_exec, paths_of, field,
}

is_nonempty-contains : (xs : List Text) (x : Text) → contains xs x ≡ true → is_nonempty xs ≡ true
is_nonempty-contains [] x h = absurd (cc)
is_nonempty-contains (y ∷ xs) x h = refl

is_nonempty-lacks : (xs : List Text) → ((x : Text) → contains xs x ≡ false) → is_nonempty xs ≡ false
is_nonempty-lacks [] h = refl
is_nonempty-lacks (y ∷ xs) h = absurd (let e = h y in ground arith)

contains-paths_of :
    (l : Level) (x : Text) (ps : List (Level × Text)) → contains (paths_of l ((l, x) ∷ ps)) x ≡ true
contains-paths_of read_only x ps = ground arith
contains-paths_of read_exec x ps = ground arith
contains-paths_of read_write x ps = ground arith
contains-paths_of read_write_exec x ps = ground arith

module _ (S : StringSets) (p : Process) where
  some_level : (l : Level) (f : Flags S) → is_nonempty (field S l f) ≡ true → has_paths S p f ≡ true
  some_level read_only f h = ground arith
  some_level read_exec f h = ground arith
  some_level read_write f h = ground arith
  some_level read_write_exec f h = ground arith

  -- Some flag gives a path exactly if a path is given.
  pub has_paths-given :
      (ps : List (Level × Text)) (f : Flags S)
      → ((l : Level) (x : Text) → contains (field S l f) x ≡ contains (paths_of l ps) x)
      → ((ps ≡ []) × (has_paths S p f ≡ false)) ⊎ ((ps ≢ []) × (has_paths S p f ≡ true))
  has_paths-given [] f same =
      let ro = is_nonempty-lacks (list_of S f.ro) (same read_only) in
      let rx = is_nonempty-lacks (list_of S f.rx) (same read_exec) in
      let rw_ = is_nonempty-lacks (list_of S f.rw_) (same read_write) in
      let rwx = is_nonempty-lacks (list_of S f.rwx) (same read_write_exec) in
      inl (refl, ground arith)
  has_paths-given ((l, x) ∷ ps) f same = inr (
    λ e. absurd (cc),
    some_level l f (is_nonempty-contains (field S l f) x (same l x ∙ contains-paths_of l x ps)),
  )
