-- ===== src/Nri/Memory.antt =====
-- A file system in memory that meets the assumptions on the one of the host.
use podlock.Prelude.{
  ◌≡◌, ◌≢◌, ◌⊎◌, inl, inr, refl, sym, ◌∙◌, ap, ap₂, subst, Bool, true, false, ◌&&◌, Option, none,
  some, List, [], ◌∷◌, ◌++◌, Text, codes, ◌==◌, text_eq, list_eq, All, All-front, arith,
  if◌then◌else◌,
}
use podlock.Io.{Result, ok, err, IoError}
use podlock.FilePath.{is_abs, clean}
use podlock.FilePath.Components.{IsName, root_path}
use podlock.FilePath.Clean.{IsCleanAbs, IsCleanAbs-iff, resolve, resolve-root_path}
use podlock.Nri.HostFs.{HostFs, Contents, IsLawful}
use podlock.Nri.Paths.Distinct.{IsBelow}

-- Whether the first list is what the second begins with.
abbrev starts : List Text → List Text → Bool
starts [] vs = true
starts (w ∷ ws) [] = false
starts (w ∷ ws) (v ∷ vs) = w == v && starts ws vs

starts-append : (ws rest : List Text) → starts ws (ws ++ rest) ≡ true
starts-append [] rest = refl
starts-append (w ∷ ws) rest = ground (arith, starts-append ws rest)

starts-rest : (ws vs : List Text) → starts ws vs ≡ true → (rest : List Text) × (vs ≡ ws ++ rest)
starts-rest [] vs h = (vs, refl)
starts-rest (w ∷ ws) [] h = absurd (cc)
starts-rest (w ∷ ws) (v ∷ vs) h =
    let same : w ≡ v = ground arith in
    let (rest, e) = starts-rest ws vs (ground arith) in (rest, ap₂ ◌∷◌ (sym same) e)

unfoldable pub is_below : Text → Text → Bool
is_below d p =
    is_abs d && clean d == d && (is_abs p && clean p == p) && starts (resolve d) (resolve p)

pub is_below_complete : (d p : Text) → IsBelow d p → is_below d p ≡ true
unfolding is_below
is_below_complete d p b =
    let front = All-front IsName b.above b.rest b.names in
    let at_d =
      (IsCleanAbs-iff d).0 (record { elements = b.above; names = front; shape = b.dir_shape }) in
    let at_p =
      (IsCleanAbs-iff p).0
        (record { elements = b.above ++ b.rest; names = b.names; shape = b.path_shape }) in
    let resolve_d : resolve d ≡ b.above =
      ap resolve b.dir_shape ∙ resolve-root_path b.above front in
    let resolve_p : resolve p ≡ b.above ++ b.rest =
      ap resolve b.path_shape ∙ resolve-root_path (b.above ++ b.rest) b.names in
    let inside : starts (resolve d) (resolve p) ≡ true =
      rw (resolve_d, resolve_p) (starts-append b.above b.rest) in
    ground arith

clean-IsBelow :
    (d p : Text) (at_d : IsCleanAbs d) (at_p : IsCleanAbs p)
    → starts (resolve d) (resolve p) ≡ true
    → IsBelow d p
clean-IsBelow d p at_d at_p h =
    let inside : starts at_d.elements at_p.elements ≡ true =
      rw
        (
          ← resolve-root_path at_d.elements at_d.names,
          ← resolve-root_path at_p.elements at_p.names,
          ← at_d.shape,
          ← at_p.shape,
        )
        h in
    let (rest, e) = starts-rest at_d.elements at_p.elements inside in
    record {
      above = at_d.elements;
      rest = rest;
      names = subst (All IsName) e at_p.names;
      dir_shape = at_d.shape;
      path_shape = at_p.shape ∙ ap root_path e;
    }

pub is_below_sound : (d p : Text) → is_below d p ≡ true → IsBelow d p
unfolding is_below
is_below_sound d p h =
    clean-IsBelow d p ((IsCleanAbs-iff d).1 (ground arith)) ((IsCleanAbs-iff p).1 (ground arith))
      (ground arith)

-- The contents of each file that is there.
abbrev pub Files : Type 0
Files = Text → Option Text

abbrev pub put : Text → Text → Files → Files
put p c files q = if q == p then some c else files q

abbrev pub missing : IoError
missing = record { message = codes "no such file or directory"; not_exist = true }

abbrev pub read_file : Option Text → Result Text
read_file none = err missing
read_file (some c) = ok c

abbrev pub opened : Option Text → Result (Unit {0})
opened none = err missing
opened (some c) = ok tt

abbrev pub created : Text → Option Text → Files → Files
created p none files = put p [] files
created p (some c) files = files

abbrev pub memory : HostFs
memory = record {
  State = Files;
  open_file = λ p s. opened (s p);
  read = λ p s. read_file (s p);
  mkdir_all = λ d mode s. (ok tt, s);
  open_create = λ p mode s. (ok tt, created p (s p) s);
  open_truncate = λ p mode s. (ok tt, put p [] s);
  write = λ p c s. (ok tt, put p c s);
  close = λ p s. (ok tt, s);
  remove_all = λ d s. (ok tt, λ p. if is_below d p then none else s p);
}

abbrev pub memory_contents : Contents memory
memory_contents = record { file = λ s p. s p }

read_file-ok : (o : Option Text) (c : Text) → read_file o ≡ ok c → o ≡ some c
read_file-ok none c h = absurd (cc)
read_file-ok (some d) c h = cc

pub put-here : (p c : Text) (files : Files) → put p c files p ≡ some c
put-here p c files = ground arith

pub put_ne : (p c : Text) (files : Files) (q : Text) → q ≢ p → put p c files q ≡ files q
put_ne p c files q h = ground arith

created-cases :
    (p q : Text) (files : Files) (o : Option Text)
    → files p ≡ o
    → (created p o files q ≡ files q)
      ⊎ ((q ≡ p) × (files q ≡ none) × (created p o files q ≡ some []))
created-cases p q files (some c) e = inl refl
created-cases p q files none e = elim (text_eq.dec q p) [
  | yes same ↦ inr (same, ap files same ∙ e, ap (put p [] files) same ∙ put-here p [] files)
  | no other ↦ inl (put_ne p [] files q other)
]

created-here :
    (p : Text) (files : Files) (o : Option Text) → files p ≡ o → created p o files p ≢ none
created-here p files (some c) e h = absurd (cc)
created-here p files none e h = let there = put-here p [] files in absurd (cc)

pub memory-IsLawful : IsLawful memory memory_contents
memory-IsLawful = record {
  read-ok = λ p s c _ h. read_file-ok (s p) c h;
  file-mkdir_all = λ d mode s p. refl;
  file-open_create = λ p mode s q. created-cases p q s (s p) refl;
  open_create-ok = λ p mode s _ h. created-here p s (s p) refl;
  open_truncate-ok = λ p mode s _ h. put-here p [] s;
  file-open_truncate_ne = λ p mode s q h. put_ne p [] s q h;
  file-write_ne = λ p c s q h. put_ne p c s q h;
  file-write = λ p c s _ empty h. put-here p c s;
  file-close = λ p s q. refl;
  file-remove_all = λ d s p h b. rw (is_below_complete d p b) refl;
  file-remove_all_ne = λ d s p n. ground (arith, is_below_sound d p);
}
