-- ===== src/Strings/Words.antt =====
-- Words between white space, and trimming.
use mathlib.Core.List.{reverse-append, reverse-reverse, reverse-cons}
use podlock.Prelude.{
  ℕ, ◌≡◌, ◌≢◌, refl, ◌∙◌, ap, true, false, List, [], ◌∷◌, ◌++◌, reverse, Text, All, nat_eq, arith,
}
use podlock.Strings.{is_space, trim_left, trim_space, cons_head, drop_empty, split_space, fields}

-- No white space in the text.
abbrev pub HasNoSpace : Text → Type 0
HasNoSpace = All (λ c. is_space c ≡ false)

pub record IsWord (w : Text) : Type 0 where
  pub no_space : HasNoSpace w
  pub not_empty : w ≢ []

cons_head-HasNoSpace :
    (c : ℕ) (ws : List Text)
    → is_space c ≡ false
    → All HasNoSpace ws
    → All HasNoSpace (cons_head c ws)
cons_head-HasNoSpace c [] h hs = ((h, tt), tt)
cons_head-HasNoSpace c (w ∷ ws) h hs = ((h, hs.0), hs.1)

split_space-HasNoSpace : (s : Text) → All HasNoSpace (split_space s)
unfolding split_space
split_space-HasNoSpace [] = (tt, tt)
split_space-HasNoSpace (c ∷ s) =
    ground (arith, split_space-HasNoSpace s, cons_head-HasNoSpace c (split_space s))

drop_empty-IsWord : (ws : List Text) → All HasNoSpace ws → All IsWord (drop_empty ws)
drop_empty-IsWord [] h = tt
drop_empty-IsWord ([] ∷ ws) h = drop_empty-IsWord ws h.1
drop_empty-IsWord ((c ∷ w) ∷ ws) h =
    (record { no_space = h.0; not_empty = λ e. cc }, drop_empty-IsWord ws h.1)

pub fields-IsWord : (s : Text) → All IsWord (fields s)
unfolding fields
fields-IsWord s = drop_empty-IsWord (split_space s) (split_space-HasNoSpace s)

split_space-word :
    (w : Text) (c : ℕ) (s : Text)
    → HasNoSpace w
    → is_space c ≡ true
    → split_space (w ++ (c ∷ s)) ≡ w ∷ split_space s
unfolding split_space
split_space-word [] c s h sp = rw sp
split_space-word (d ∷ w) c s h sp = rw (h.0, split_space-word w c s h.1 sp)

-- A word that white space ends is the first field.
pub fields-word :
    (w : Text) (c : ℕ) (s : Text)
    → IsWord w
    → is_space c ≡ true
    → fields (w ++ (c ∷ s)) ≡ w ∷ fields s
unfolding fields
fields-word [] c s h sp = absurd (h.not_empty refl)
fields-word (d ∷ w) c s h sp = rw (split_space-word (d ∷ w) c s h.no_space sp)

trim_left-space : (c : ℕ) (s : Text) → is_space c ≡ true → trim_left (c ∷ s) ≡ trim_left s
unfolding trim_left
trim_left-space c s h = rw h

trim_left-word : (c : ℕ) (s : Text) → is_space c ≡ false → trim_left (c ∷ s) ≡ c ∷ s
unfolding trim_left
trim_left-word c s h = rw h

trim_end :
    (t : Text) (d : ℕ)
    → is_space d ≡ false
    → reverse (trim_left (reverse (t ++ d ∷ []))) ≡ t ++ d ∷ []
trim_end t d h =
    ap (λ (u : Text). reverse (trim_left u)) (reverse-append t (d ∷ []))
    ∙ ap reverse (trim_left-word d (reverse t) h)
    ∙ reverse-cons d (reverse t)
    ∙ ap (λ (u : Text). u ++ d ∷ []) (reverse-reverse t)

-- White space in front is trimmed, and nothing between two characters that are none.
pub trim_space-edges :
    (a c : ℕ) (s : Text) (d : ℕ)
    → is_space a ≡ true
    → is_space c ≡ false
    → is_space d ≡ false
    → trim_space (a ∷ c ∷ (s ++ d ∷ [])) ≡ c ∷ (s ++ d ∷ [])
unfolding trim_space
trim_space-edges a c s d ha hc hd =
    rw (trim_left-space a (c ∷ (s ++ d ∷ [])) ha, trim_left-word c (s ++ d ∷ []) hc)
      (trim_end (c ∷ s) d hd)
