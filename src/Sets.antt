-- ===== src/Sets.antt =====
-- The sets of texts of k8s.io/apimachinery (`sets.Set[string]`), as an interface.
use podlock.Prelude.{
  ℕ, ◌≡◌, ◌&&◌, ◌||◌, List, [], ◌∷◌, Text, contains, length, ◌==◌, text_eq, refl, arith,
  if◌then◌else◌,
}

pub record StringSets : Type 1 where
  pub Set : Type 0
  pub new : List Text → Set
  pub insert : Set → Text → Set
  pub intersection : Set → Set → Set
  pub list : Set → List Text
  pub len : Set → ℕ

-- What the documentation of the package says of the members.
pub record IsLawful (S : StringSets) : Type 0 where
  pub list-new : (xs : List Text) (x : Text) → contains (S.list (S.new xs)) x ≡ contains xs x
  pub list-insert :
      (s : S.Set) (y x : Text)
      → contains (S.list (S.insert s y)) x ≡ (x == y || contains (S.list s) x)
  pub list-intersection :
      (s t : S.Set) (x : Text)
      → contains (S.list (S.intersection s t)) x ≡ (contains (S.list s) x && contains (S.list t) x)
  pub len-list : (s : S.Set) → S.len s ≡ length (S.list s)

-- Sets as lists without repetition.
unfoldable pub add : List Text → Text → List Text
add xs x = if contains xs x then xs else x ∷ xs

unfoldable pub from_list : List Text → List Text
unfolding add
from_list [] = []
from_list (x ∷ xs) = add (from_list xs) x

unfoldable pub meet : List Text → List Text → List Text
meet [] ys = []
meet (x ∷ xs) ys = let rest = meet xs ys in if contains ys x then x ∷ rest else rest

abbrev pub list_sets : StringSets
list_sets = record {
  Set = List Text;
  new = from_list;
  insert = add;
  intersection = meet;
  list = λ s. s;
  len = λ s. length s;
}

contains-add : (xs : List Text) (y x : Text) → contains (add xs y) x ≡ (x == y || contains xs x)
unfolding add
contains-add xs y x = ground arith

contains-from_list : (xs : List Text) (x : Text) → contains (from_list xs) x ≡ contains xs x
unfolding from_list
contains-from_list [] x = refl
contains-from_list (y ∷ xs) x =
    ground (arith, contains-add (from_list xs) y x, contains-from_list xs x)

contains-meet :
    (xs ys : List Text) (x : Text) → contains (meet xs ys) x ≡ (contains xs x && contains ys x)
unfolding meet
contains-meet [] ys x = refl
contains-meet (y ∷ xs) ys x = ground (arith, contains-meet xs ys x)

pub list_sets-IsLawful : IsLawful list_sets
list_sets-IsLawful = record {
  list-new = contains-from_list;
  list-insert = contains-add;
  list-intersection = contains-meet;
  len-list = λ s. refl;
}
