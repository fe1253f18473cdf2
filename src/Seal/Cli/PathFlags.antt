-- ===== src/Seal/Cli/PathFlags.antt =====
-- The flags for paths are read back from their printing.
use podlock.Prelude.{
  ◌≡◌, refl, ◌∙◌, ap, Bool, ◌||◌, none, some, List, [], ◌∷◌, Text, codes, contains, arith, text_eq,
  nat_eq, ◌==◌,
}
use podlock.Fallible.{ok}
use podlock.Strings.{cut_at}
use podlock.Sets.{StringSets}
use podlock.Sets
use podlock.Flags.{parse, step, token}
use podlock.Seal.Flags.{Flags, no_flags, list_of, set_string, formal, StringSetFlag}

pub data Level : Type 0 where
  read_only read_exec read_write read_write_exec : Level

abbrev pub flag_text : Level → Text
flag_text read_only = codes "-ro"
flag_text read_exec = codes "-rx"
flag_text read_write = codes "-rw"
flag_text read_write_exec = codes "-rwx"

-- The paths of a level, in a list of levels and paths.
abbrev pub paths_of : Level → List (Level × Text) → List Text
paths_of l [] = []
paths_of read_only ((read_only, p) ∷ ps) = p ∷ paths_of read_only ps
paths_of read_exec ((read_exec, p) ∷ ps) = p ∷ paths_of read_exec ps
paths_of read_write ((read_write, p) ∷ ps) = p ∷ paths_of read_write ps
paths_of read_write_exec ((read_write_exec, p) ∷ ps) = p ∷ paths_of read_write_exec ps
paths_of l (_ ∷ ps) = paths_of l ps

abbrev pub print_flags : List (Level × Text) → List Text
print_flags [] = []
print_flags ((l, p) ∷ ps) = flag_text l ∷ p ∷ print_flags ps

module _ (S : StringSets) where
  -- The variables that no flag for a path sets.
  abbrev pub SameOthers : Flags S → Flags S → Type 0
  SameOthers f g = (g.log_level ≡ f.log_level) × (g.log_format ≡ f.log_format) × (g.ldd ≡ f.ldd)

  abbrev pub field : Level → Flags S → List Text
  field read_only f = list_of S f.ro
  field read_exec f = list_of S f.rx
  field read_write f = list_of S f.rw_
  field read_write_exec f = list_of S f.rwx

  abbrev with_path : Level → Text → Flags S → Flags S
  with_path read_only p f = record f { ro = set_string S p f.ro }
  with_path read_exec p f = record f { rx = set_string S p f.rx }
  with_path read_write p f = record f { rw_ = set_string S p f.rw_ }
  with_path read_write_exec p f = record f { rwx = set_string S p f.rwx }

  with_path-SameOthers : (l : Level) (p : Text) (f : Flags S) → SameOthers f (with_path l p f)
  with_path-SameOthers read_only p f = (refl, refl, refl)
  with_path-SameOthers read_exec p f = (refl, refl, refl)
  with_path-SameOthers read_write p f = (refl, refl, refl)
  with_path-SameOthers read_write_exec p f = (refl, refl, refl)

  parse-cons :
      (l : Level) (p : Text) (args : List Text) (f : Flags S)
      → parse (formal S) f none (flag_text l ∷ p ∷ args)
        ≡ parse (formal S) (with_path l p f) none args
  unfolding parse step token formal text_eq cut_at
  parse-cons read_only p args f = refl
  parse-cons read_exec p args f = refl
  parse-cons read_write p args f = refl
  parse-cons read_write_exec p args f = refl

  module _ (laws : Sets.IsLawful S) where
    contains-set_string :
        (v : Text) (s : StringSetFlag S) (x : Text)
        → contains (list_of S (set_string S v s)) x ≡ (x == v || contains (list_of S s) x)
    unfolding set_string
    contains-set_string v none x =
        laws.list-insert (S.new []) v x ∙ ap (λ (b : Bool). x == v || b) (laws.list-new [] x)
    contains-set_string v (some s) x = laws.list-insert s v x

    -- What is in a level, after one more path.
    contains-with_path :
        (k l : Level) (p : Text) (ps : List (Level × Text)) (f : Flags S) (x : Text)
        → (contains (field k (with_path l p f)) x || contains (paths_of k ps) x)
          ≡ (contains (field k f) x || contains (paths_of k ((l, p) ∷ ps)) x)
    contains-with_path read_only read_only p ps f x = ground (arith, contains-set_string p f.ro x)
    contains-with_path read_exec read_exec p ps f x = ground (arith, contains-set_string p f.rx x)
    contains-with_path read_write read_write p ps f x =
        ground (arith, contains-set_string p f.rw_ x)
    contains-with_path read_write_exec read_write_exec p ps f x =
        ground (arith, contains-set_string p f.rwx x)
    contains-with_path _ _ p ps f x = refl

    pub no_flags-lacks :
        (l : Level) (x : Text) (b : Bool) → (contains (field l (no_flags S)) x || b) ≡ b
    no_flags-lacks read_only x b = refl
    no_flags-lacks read_exec x b = refl
    no_flags-lacks read_write x b = refl
    no_flags-lacks read_write_exec x b = refl

    pub parse-print_from :
        (ps : List (Level × Text)) (f : Flags S)
        → (g : Flags S) × (parse (formal S) f none (print_flags ps) ≡ ok g)
          × ((l : Level) (x : Text)
              → contains (field l g) x ≡ (contains (field l f) x || contains (paths_of l ps) x))
          × SameOthers f g
    unfolding parse
    parse-print_from [] f = (f, refl, λ l x. ground arith, (refl, refl, refl))
    parse-print_from ((l, p) ∷ ps) f =
        let (g, parsed, same, others) = parse-print_from ps (with_path l p f) in
        let (level, format, ldd) = with_path-SameOthers l p f in
        let (level', format', ldd') = others in
        (
          g,
          parse-cons l p (print_flags ps) f ∙ parsed,
          λ k x. same k x ∙ contains-with_path k l p ps f x,
          (level' ∙ level, format' ∙ format, ldd' ∙ ldd),
        )

    -- A command line that gives paths by `-ro`, `-rx`, `-rw` and `-rwx`, in any order and number, is
    -- parsed, whatever the texts of the paths are, and each level holds exactly the paths given for
    -- it.
    pub parse-print_flags :
        (ps : List (Level × Text))
        → (g : Flags S) × (parse (formal S) (no_flags S) none (print_flags ps) ≡ ok g)
          × ((l : Level) (x : Text) → contains (field l g) x ≡ contains (paths_of l ps) x)
    parse-print_flags ps =
        let (g, parsed, same, _) = parse-print_from ps (no_flags S) in
        (g, parsed, λ l x. same l x ∙ no_flags-lacks l x (contains (paths_of l ps) x))
