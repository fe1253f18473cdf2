-- ===== src/OciHook/Memory.antt =====
-- Mounts in memory that meet the assumptions on the kernel: the descriptors are numbers, given out in
-- order, and never given out again.
use podlock.Prelude.{
  ℕ, zero, suc, ◌≡◌, ◌≢◌, refl, subst, Option, none, some, List, [], ◌∷◌, ◌++◌, Text, codes, length,
  false,
}
use podlock.Io.{Result, ok, err, IoError}
use podlock.Nri.Memory.{Files, put, missing, put-here, put_ne}
use podlock.OciHook.Syscalls.{Kernel, View, IsLawful}

abbrev pub get_elem? : List Text → ℕ → Option Text
get_elem? [] i = none
get_elem? (x ∷ xs) zero = some x
get_elem? (x ∷ xs) (suc i) = get_elem? xs i

get_elem?-length : (xs : List Text) (x : Text) → get_elem? (xs ++ x ∷ []) (length xs) ≡ some x
get_elem?-length [] x = refl
get_elem?-length (y ∷ xs) x = get_elem?-length xs x

get_elem?-append :
    (xs ys : List Text) (i : ℕ) (x : Text)
    → get_elem? xs i ≡ some x
    → get_elem? (xs ++ ys) i ≡ some x
get_elem?-append [] ys i x h = absurd (cc)
get_elem?-append (y ∷ xs) ys zero x h = h
get_elem?-append (y ∷ xs) ys (suc i) x h = get_elem?-append xs ys i x h

pub record Mounts : Type 0 where
  pub files : Files
  pub trees : List Text

abbrev bad_descriptor : IoError
bad_descriptor = record { message = codes "bad file descriptor"; not_exist = false }

abbrev cloned : Option Text → Mounts → Result ℕ × Mounts
cloned none s = (err missing, s)
cloned (some f) s = (ok (length s.trees), record s { trees = s.trees ++ f ∷ [] })

abbrev mounted : Option Text → Text → Mounts → Result (Unit {0}) × Mounts
mounted none p s = (err bad_descriptor, s)
mounted (some f) p s = (ok tt, record s { files = put p f s.files })

abbrev pub memory : Kernel
memory = record {
  State = Mounts;
  Fd = ℕ;
  open_tree = λ p s. cloned (s.files p) s;
  move_mount = λ fd p s. mounted (get_elem? s.trees fd) p s;
  close = λ fd s. s;
  chroot = λ p s. (ok tt, s);
}

abbrev pub memory_view : View memory
memory_view = record { File = Text; at = λ s p. s.files p; tree = λ s fd. get_elem? s.trees fd }

cloned-ok :
    (o : Option Text) (s : Mounts) (fd : ℕ)
    → (cloned o s).0 ≡ ok fd
    → (f : Text) × (o ≡ some f) × (get_elem? (cloned o s).1.trees fd ≡ o)
cloned-ok none s fd h = absurd (cc)
cloned-ok (some f) s fd h =
    let next : length s.trees ≡ fd = cc h in
    (
      f,
      refl,
      subst (λ (i : ℕ). get_elem? (s.trees ++ f ∷ []) i ≡ some f) next (get_elem?-length s.trees f),
    )

cloned-trees :
    (o : Option Text) (s : Mounts) (fd : ℕ) (f : Text)
    → get_elem? s.trees fd ≡ some f
    → get_elem? (cloned o s).1.trees fd ≡ some f
cloned-trees none s fd f h = h
cloned-trees (some g) s fd f h = get_elem?-append s.trees (g ∷ []) fd f h

cloned-files : (o : Option Text) (s : Mounts) (q : Text) → (cloned o s).1.files q ≡ s.files q
cloned-files none s q = refl
cloned-files (some f) s q = refl

mounted-ok :
    (o : Option Text) (p : Text) (s : Mounts)
    → (mounted o p s).0 ≡ ok tt
    → (mounted o p s).1.files p ≡ o
mounted-ok none p s h = absurd (cc)
mounted-ok (some f) p s h = put-here p f s.files

mounted_ne :
    (o : Option Text) (p : Text) (s : Mounts) (q : Text)
    → q ≢ p
    → (mounted o p s).1.files q ≡ s.files q
mounted_ne none p s q h = refl
mounted_ne (some f) p s q h = put_ne p f s.files q h

mounted-err :
    (o : Option Text) (p : Text) (s : Mounts) (e : IoError) (q : Text)
    → (mounted o p s).0 ≡ err e
    → (mounted o p s).1.files q ≡ s.files q
mounted-err none p s e q h = refl
mounted-err (some f) p s e q h = absurd (cc)

mounted-trees :
    (o : Option Text) (p : Text) (s : Mounts) (g : ℕ)
    → get_elem? (mounted o p s).1.trees g ≡ get_elem? s.trees g
mounted-trees none p s g = refl
mounted-trees (some f) p s g = refl

pub memory-IsLawful : IsLawful memory memory_view
memory-IsLawful = record {
  tree-open_tree = λ p s fd h. (cloned-ok (s.files p) s fd h).2;
  tree-open_tree_ne = λ p s fd f h. cloned-trees (s.files p) s fd f h;
  at-open_tree = λ p s q. cloned-files (s.files p) s q;
  open_tree-there = λ p s fd h. let c = cloned-ok (s.files p) s fd h in (c.0, c.1);
  at-move_mount = λ fd p s h. mounted-ok (get_elem? s.trees fd) p s h;
  at-move_mount_ne = λ fd p s q h. mounted_ne (get_elem? s.trees fd) p s q h;
  at-move_mount_err = λ fd p s e q h. mounted-err (get_elem? s.trees fd) p s e q h;
  tree-move_mount = λ fd p s g. mounted-trees (get_elem? s.trees fd) p s g;
  at-close = λ fd s q. refl;
}
