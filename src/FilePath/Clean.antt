-- ===== src/FilePath/Clean.antt =====
-- The paths that `clean` leaves alone are those of proper elements, and `join` lists them.
use mathlib.Core.List.{reverse-reverse, append-nil}
use podlock.Prelude.{
  ◌≡◌, ◌↔◌, refl, sym, ◌∙◌, ap, true, List, [], ◌∷◌, foldl, reverse, Text, All, nat_eq,
}
use podlock.Strings.{join_with}
use podlock.FilePath.{separator, is_abs, clean, join}
use podlock.FilePath.Components.{
  IsName, root_path, advance, advance-root_path, advance-IsName, All-reverse, advance-join_all,
}

-- The elements that are left of an absolute path.
abbrev pub resolve : Text → List Text
resolve p = reverse (advance [] p)

pub resolve-IsName : (p : Text) → All IsName (resolve p)
resolve-IsName p = All-reverse IsName (advance [] p) (advance-IsName [] p tt)

pub clean_abs : (p : Text) → is_abs p ≡ true → clean p ≡ root_path (resolve p)
unfolding clean
clean_abs p h = rw h

pub is_abs-root_path : (ws : List Text) → is_abs (root_path ws) ≡ true
unfolding is_abs nat_eq
is_abs-root_path ws = refl

pub resolve-root_path : (ws : List Text) → All IsName ws → resolve (root_path ws) ≡ ws
resolve-root_path ws h = rw (advance-root_path [] ws h, append-nil) (reverse-reverse ws)

pub clean-root_path : (ws : List Text) → All IsName ws → clean (root_path ws) ≡ root_path ws
clean-root_path ws h = clean_abs _ (is_abs-root_path ws) ∙ ap root_path (resolve-root_path ws h)

pub root_path-injective :
    (ws vs : List Text) → All IsName ws → All IsName vs → root_path ws ≡ root_path vs → ws ≡ vs
root_path-injective ws vs hw hv e =
    sym (resolve-root_path ws hw) ∙ ap resolve e ∙ resolve-root_path vs hv

-- An absolute path whose elements are all proper: none is empty, `.` or `..`.
pub record IsCleanAbs (p : Text) : Type 0 where
  pub elements : List Text
  pub names : All IsName elements
  pub shape : p ≡ root_path elements

pub IsCleanAbs-iff : (p : Text) → IsCleanAbs p ↔ ((is_abs p ≡ true) × (clean p ≡ p))
IsCleanAbs-iff p = (
  λ c. (rw c.shape (is_abs-root_path c.elements), rw c.shape (clean-root_path c.elements c.names)),
  λ h. record { elements = resolve p; names = resolve-IsName p; shape = sym h.1 ∙ clean_abs p h.0 },
)

pub clean-clean : (p : Text) → is_abs p ≡ true → clean (clean p) ≡ clean p
clean-clean p h = rw (clean_abs p h) (clean-root_path (resolve p) (resolve-IsName p))

is_abs-join_with :
    (p : Text) (ws : List Text) → is_abs (join_with separator ((separator ∷ p) ∷ ws)) ≡ true
unfolding is_abs join_with nat_eq
is_abs-join_with p [] = refl
is_abs-join_with p (w ∷ ws) = refl

-- `join` below an absolute path.
pub join_abs :
    (p : Text) (ws : List Text)
    → join ((separator ∷ p) ∷ ws) ≡ root_path (reverse (foldl advance [] ((separator ∷ p) ∷ ws)))
unfolding join
join_abs p ws =
    clean_abs _ (is_abs-join_with p ws)
    ∙ ap (λ (stack : List Text). root_path (reverse stack)) (advance-join_all [] (separator ∷ p) ws)
