-- ===== src/Strings/Laws.antt =====
-- Splitting and joining at a byte.
use podlock.Prelude.{
  ℕ, ◌≡◌, ◌≢◌, refl, false, List, [], ◌∷◌, ◌++◌, arith, Text, contains, All, nat_eq,
}
use podlock.Strings.{split_on, cons_head, join_with}

-- The last element of the first list goes in front of the first of the second.
abbrev pub glue : List Text → List Text → List Text
glue [] vs = vs
glue (w ∷ []) [] = w ∷ []
glue (w ∷ []) (v ∷ vs) = (w ++ v) ∷ vs
glue (w ∷ w' ∷ ws) vs = w ∷ glue (w' ∷ ws) vs

pub split_on-ne-nil : (sep : ℕ) (s : Text) → split_on sep s ≢ []
unfolding split_on
split_on-ne-nil sep [] = λ p. cc
split_on-ne-nil sep (c ∷ s) = ground (arith, split_on-ne-nil sep s)

cons_head-append :
    (c : ℕ) (ws vs : List Text) → ws ≢ [] → cons_head c (ws ++ vs) ≡ cons_head c ws ++ vs
cons_head-append c [] vs h = absurd (h refl)
cons_head-append c (w ∷ ws) vs h = refl

-- A separator between two texts is a cut between their pieces.
pub split_on-append :
    (sep : ℕ) (s t : Text) → split_on sep (s ++ (sep ∷ t)) ≡ split_on sep s ++ split_on sep t
unfolding split_on
split_on-append sep [] t = ground arith
split_on-append sep (c ∷ s) t = ground (
  arith,
  split_on-append sep s t,
  cons_head-append c (split_on sep s) (split_on sep t),
  split_on-ne-nil sep s,
)

-- A text without the separator is one piece.
pub split_on-one : (sep : ℕ) (s : Text) → contains s sep ≡ false → split_on sep s ≡ s ∷ []
unfolding split_on
split_on-one sep [] h = refl
split_on-one sep (c ∷ s) h = ground (arith, split_on-one sep s)

abbrev pub Lacks : ℕ → Text → Type 0
Lacks sep w = contains w sep ≡ false

cons_head-Lacks :
    (sep c : ℕ) (ws : List Text) → c ≢ sep → All (Lacks sep) ws → All (Lacks sep) (cons_head c ws)
cons_head-Lacks sep c [] h hs = ground arith
cons_head-Lacks sep c (w ∷ ws) h hs = (ground arith, hs.1)

pub split_on-Lacks : (sep : ℕ) (s : Text) → All (Lacks sep) (split_on sep s)
unfolding split_on
split_on-Lacks sep [] = (refl, tt)
split_on-Lacks sep (c ∷ s) =
    ground (arith, split_on-Lacks sep s, cons_head-Lacks sep c (split_on sep s))

pub split_on-join_with :
    (sep : ℕ) (w : Text) (ws : List Text)
    → All (Lacks sep) (w ∷ ws)
    → split_on sep (join_with sep (w ∷ ws)) ≡ w ∷ ws
unfolding join_with
split_on-join_with sep w [] h = split_on-one sep w h.0
split_on-join_with sep w (v ∷ vs) h = ground (
  arith,
  split_on-append sep w (join_with sep (v ∷ vs)),
  split_on-one sep w,
  split_on-join_with sep v vs,
)

join_with-cons_head :
    (sep c : ℕ) (ws : List Text) → join_with sep (cons_head c ws) ≡ c ∷ join_with sep ws
unfolding join_with
join_with-cons_head sep c [] = refl
join_with-cons_head sep c (w ∷ []) = refl
join_with-cons_head sep c (w ∷ v ∷ ws) = refl

join_with-nil :
    (sep : ℕ) (ws : List Text) → ws ≢ [] → join_with sep ([] ∷ ws) ≡ sep ∷ join_with sep ws
unfolding join_with
join_with-nil sep [] h = absurd (h refl)
join_with-nil sep (w ∷ ws) h = refl

pub join_with-split_on : (sep : ℕ) (s : Text) → join_with sep (split_on sep s) ≡ s
unfolding split_on
join_with-split_on sep [] = unfold join_with in refl
join_with-split_on sep (c ∷ s) = ground (
  arith,
  join_with-split_on sep s,
  join_with-cons_head sep c (split_on sep s),
  join_with-nil sep (split_on sep s),
  split_on-ne-nil sep s,
)
