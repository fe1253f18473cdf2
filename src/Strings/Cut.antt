-- ===== src/Strings/Cut.antt =====
-- What `cut_at` finds: the first separator, if there is one.
use podlock.Prelude.{
  ℕ, ◌≡◌, ◌⊎◌, inl, inr, refl, ap, true, false, none, some, [], ◌∷◌, ◌++◌, Text, contains, ◌==◌,
  nat_eq, arith, Bool-cases,
}
use podlock.Strings.{has_prefix, cut_at}
use podlock.Strings.Laws.{Lacks}

pub record CutAt (sep : ℕ) (s : Text) : Type 0 where
  pub before : Text
  pub after : Text
  pub cut : cut_at sep s ≡ some (before, after)
  pub whole : s ≡ before ++ (sep ∷ after)
  pub lacks : Lacks sep before
  pub inside : contains s sep ≡ true

pub cut_at-cases :
    (sep : ℕ) (s : Text) → ((cut_at sep s ≡ none) × (contains s sep ≡ false)) ⊎ CutAt sep s
unfolding cut_at
cut_at-cases sep [] = inl (refl, refl)
cut_at-cases sep (c ∷ s) = elim (Bool-cases (c == sep)) [
  | inl here ↦
      let same : c ≡ sep = ground arith in
      inr (record {
        before = [];
        after = s;
        cut = rw here;
        whole = ap (λ (x : ℕ). x ∷ s) same;
        lacks = refl;
        inside = ground arith;
      })
  | inr not_here ↦ elim (cut_at-cases sep s) [
    | inl (uncut, lacks) ↦ inl (rw (not_here, uncut), ground arith)
    | inr c' ↦ inr (record {
      before = c ∷ c'.before;
      after = c'.after;
      cut = rw (not_here, c'.cut);
      whole = ap (λ (x : Text). c ∷ x) c'.whole;
      lacks = ground (arith, c'.lacks);
      inside = ground (arith, c'.inside);
    })
  ]
]

-- A prefix without the separator ends before it.
pub has_prefix_before :
    (sep : ℕ) (s t prefix : Text)
    → Lacks sep prefix
    → has_prefix (s ++ (sep ∷ t)) prefix ≡ has_prefix s prefix
unfolding has_prefix
has_prefix_before sep s t [] h = unfold has_prefix in ground arith
has_prefix_before sep [] t (p ∷ prefix) h = ground arith
has_prefix_before sep (c ∷ s) t (p ∷ prefix) h = ground (arith, has_prefix_before sep s t prefix)
