-- ===== src/Finalizers.antt =====
-- The finalizer functions of controller-runtime (`controllerutil`), as an interface over the list of
-- an object's finalizers.
use podlock.Prelude.{
  ◌≡◌, refl, Bool, ◌&&◌, ◌||◌, not, List, [], ◌∷◌, Text, contains, ◌==◌, text_eq, arith,
  if◌then◌else◌,
}

pub record Finalizers : Type 0 where
  pub contains_finalizer : List Text → Text → Bool
  pub add_finalizer : List Text → Text → List Text
  pub remove_finalizer : List Text → Text → List Text

-- What the documentation says: the test is for presence, a finalizer is added if it is not there,
-- and is removed if it is.
pub record IsLawful (F : Finalizers) : Type 0 where
  pub contains_finalizer-eq :
      (fs : List Text) (f : Text) → F.contains_finalizer fs f ≡ contains fs f
  pub contains-add :
      (fs : List Text) (f g : Text) → contains (F.add_finalizer fs f) g ≡ (g == f || contains fs g)
  pub contains-remove :
      (fs : List Text) (f g : Text)
      → contains (F.remove_finalizer fs f) g ≡ (not (g == f) && contains fs g)

unfoldable pub add : List Text → Text → List Text
add fs f = if contains fs f then fs else f ∷ fs

unfoldable pub remove : List Text → Text → List Text
remove [] f = []
remove (g ∷ fs) f = let rest = remove fs f in if g == f then rest else g ∷ rest

abbrev pub list_finalizers : Finalizers
list_finalizers = record {
  contains_finalizer = λ fs f. contains fs f;
  add_finalizer = add;
  remove_finalizer = remove;
}

contains-add_lem : (fs : List Text) (f g : Text) → contains (add fs f) g ≡ (g == f || contains fs g)
unfolding add
contains-add_lem fs f g = ground arith

contains-remove_lem :
    (fs : List Text) (f g : Text) → contains (remove fs f) g ≡ (not (g == f) && contains fs g)
unfolding remove
contains-remove_lem [] f g = ground arith
contains-remove_lem (h ∷ fs) f g = ground (arith, contains-remove_lem fs f g)

pub list_finalizers-IsLawful : IsLawful list_finalizers
list_finalizers-IsLawful = record {
  contains_finalizer-eq = λ fs f. refl;
  contains-add = contains-add_lem;
  contains-remove = contains-remove_lem;
}
