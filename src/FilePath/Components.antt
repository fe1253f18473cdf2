-- ===== src/FilePath/Components.antt =====
-- The element walk of `clean` and `join`, one element and one path at a time.
use mathlib.Core.List.{foldl-append, append_assoc}
use mathlib.Core.List.{reverse-cons}
use podlock.Prelude.{
  ◌≡◌, ◌≢◌, refl, ◌∙◌, Bool, true, List, [], ◌∷◌, ◌++◌, foldl, reverse, arith, Text, codes, All,
  All-append,
}
use podlock.Strings.{split_on, join_with}
use podlock.Strings.Laws.{Lacks, split_on-append, split_on-one, split_on-Lacks, split_on-join_with}
use podlock.FilePath.{separator, pop, clean_step}

-- A proper element of a path.
abbrev pub IsName : Text → Type 0
IsName w = Lacks separator w × (w ≢ []) × (w ≢ codes ".") × (w ≢ codes "..")

abbrev pub root_path : List Text → Text
root_path ws = separator ∷ join_with separator ws

module _ (rooted : Bool) where
  pub clean_step-name :
      (stack : List Text) (w : Text) → IsName w → clean_step rooted stack w ≡ w ∷ stack
  unfolding clean_step
  clean_step-name stack w h = ground arith

  pub clean_step-nil : (stack : List Text) → clean_step rooted stack [] ≡ stack
  unfolding clean_step
  clean_step-nil stack = ground arith

  pub foldl-names :
      (stack ws : List Text)
      → All IsName ws
      → foldl (clean_step rooted) stack ws ≡ reverse ws ++ stack
  foldl-names stack [] h = refl
  foldl-names stack (w ∷ ws) h =
      rw (clean_step-name stack w h.0, foldl-names (w ∷ stack) ws h.1, reverse-cons)
        (simp append_assoc)

pop-IsName : (stack : List Text) → All IsName stack → All IsName (pop true stack)
pop-IsName [] h = tt
pop-IsName (t ∷ ts) h = ground arith

pub clean_step-IsName :
    (stack : List Text) (w : Text)
    → All IsName stack
    → Lacks separator w
    → All IsName (clean_step true stack w)
unfolding clean_step
clean_step-IsName stack w hs hw = ground (arith, pop-IsName stack)

pub foldl-IsName :
    (stack ws : List Text)
    → All IsName stack
    → All (Lacks separator) ws
    → All IsName (foldl (clean_step true) stack ws)
foldl-IsName stack [] hs h = hs
foldl-IsName stack (w ∷ ws) hs h =
    foldl-IsName (clean_step true stack w) ws (clean_step-IsName stack w hs h.0) h.1

pub All-reverse {ℓ κ} : {A : Type ℓ} (P : A → Type κ) (xs : List A) → All P xs → All P (reverse xs)
All-reverse P [] h = tt
All-reverse P (x ∷ xs) h =
    rw reverse-cons (All-append P (reverse xs) (x ∷ []) (All-reverse P xs h.1) (h.0, tt))

-- The walk over all elements of a further path.
abbrev pub advance : List Text → Text → List Text
advance stack p = foldl (clean_step true) stack (split_on separator p)

pub advance-IsName :
    (stack : List Text) (p : Text) → All IsName stack → All IsName (advance stack p)
advance-IsName stack p h = foldl-IsName stack _ h (split_on-Lacks separator p)

pub advance-name : (stack : List Text) (w : Text) → IsName w → advance stack w ≡ w ∷ stack
advance-name stack w h = rw (split_on-one separator w h.0) (clean_step-name true stack w h)

advance-nil : (stack : List Text) → advance stack [] ≡ stack
unfolding split_on
advance-nil stack = clean_step-nil true stack

pub advance-join :
    (stack : List Text) (p q : Text)
    → advance stack (p ++ (separator ∷ q)) ≡ advance (advance stack p) q
advance-join stack p q = rw (split_on-append separator p q, foldl-append)

names-Lacks : (ws : List Text) → All IsName ws → All (Lacks separator) ws
names-Lacks [] h = tt
names-Lacks (w ∷ ws) h = (h.0.0, names-Lacks ws h.1)

pub advance-join_with :
    (stack ws : List Text)
    → All IsName ws
    → advance stack (join_with separator ws) ≡ reverse ws ++ stack
unfolding join_with
advance-join_with stack [] h = advance-nil stack
advance-join_with stack (w ∷ ws) h =
    rw (split_on-join_with separator w ws (names-Lacks (w ∷ ws) h))
      (foldl-names true stack (w ∷ ws) h)

pub advance-root_path :
    (stack ws : List Text) → All IsName ws → advance stack (root_path ws) ≡ reverse ws ++ stack
advance-root_path stack ws h =
    advance-join stack [] (join_with separator ws) ∙ rw advance-nil (advance-join_with stack ws h)

-- The walk over the paths of a call of `join`.
pub advance-join_all :
    (stack : List Text) (w : Text) (ws : List Text)
    → advance stack (join_with separator (w ∷ ws)) ≡ foldl advance stack (w ∷ ws)
unfolding join_with
advance-join_all stack w [] = refl
advance-join_all stack w (v ∷ ws) =
    advance-join stack w (join_with separator (v ∷ ws)) ∙ advance-join_all (advance stack w) v ws
