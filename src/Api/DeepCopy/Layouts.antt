-- ===== src/Api/DeepCopy/Layouts.antt =====
-- The layouts of slices and maps, and that their copies are deep.
use podlock.Prelude.{
  ◌≡◌, refl, sym, ap, ap₂, ◌∙◌, ℕ, ◌≤◌, ◌<◌, Option, none, some, List, [], ◌∷◌, Text, arith, subst,
}
use podlock.Map.{Map}
use podlock.Api.Heap.{
  Heap, alloc, alloc-Extends, alloc-here, copy_ref, copy_elements, copy_entry, copy_entries,
  Extends, Extends-refl, Layout, Copied, IsValid, IsCopier, IsValid-Extends, Copied-later,
  Copied-earlier,
}

module _ {Cell : Type 0} where
  -- Values without addresses
  abbrev pub value_layout : (C : Type 0) → Layout Cell C C
  value_layout C = record {
    view = λ h c. c;
    Within = λ l u h c. Unit;
    widen = λ l u l' u' h c _ _ _. tt;
    agree = λ l u h k c _ _. (tt, refl);
  }

  module _ {X A : Type 0} (L : Layout Cell X A) where
    abbrev view_list : Heap Cell → List X → List A
    view_list h [] = []
    view_list h (x ∷ xs) = L.view h x ∷ view_list h xs

    abbrev AllWithin : ℕ → ℕ → Heap Cell → List X → Type 0
    AllWithin l u h [] = Unit
    AllWithin l u h (x ∷ xs) = L.Within l u h x × AllWithin l u h xs

    widen_list :
        (l u l' u' : ℕ) (h : Heap Cell) (xs : List X)
        → l' ≤ l
        → u ≤ u'
        → AllWithin l u h xs
        → AllWithin l' u' h xs
    widen_list l u l' u' h [] low high w = tt
    widen_list l u l' u' h (x ∷ xs) low high (w, ws) =
        (L.widen l u l' u' h x low high w, widen_list l u l' u' h xs low high ws)

    agree_list :
        (l u : ℕ) (h k : Heap Cell) (xs : List X)
        → ((a : ℕ) → l ≤ a → a < u → k.cell a ≡ h.cell a)
        → AllWithin l u h xs
        → AllWithin l u k xs × (view_list k xs ≡ view_list h xs)
    agree_list l u h k [] same w = (tt, refl)
    agree_list l u h k (x ∷ xs) same (w, ws) =
        let (within, e) = L.agree l u h k x same w in
        let (rest, es) = agree_list l u h k xs same ws in ((within, rest), ap₂ ◌∷◌ e es)

    -- The elements of a slice
    unfoldable pub list_layout : Layout Cell (List X) (List A)
    unfolding widen_list agree_list
    list_layout = record {
      view = view_list;
      Within = AllWithin;
      widen = widen_list;
      agree = agree_list;
    }

    pub copy_elements-IsCopier :
        (copy : X → Heap Cell → X × Heap Cell)
        → IsCopier L copy
        → IsCopier list_layout (copy_elements copy)
    unfolding copy_elements list_layout
    copy_elements-IsCopier copy copies h [] valid = record {
      extends = Extends-refl h;
      fresh = tt;
      same = refl;
    }
    copy_elements-IsCopier copy copies h (x ∷ xs) (valid, valids) =
        let (y, k) = copy x h in
        let (ys, j) = copy_elements copy xs k in
        let first = copies h x valid in
        let valids_later = IsValid-Extends list_layout h k xs first.extends valids in
        let second = copy_elements-IsCopier copy copies k xs valids_later.0 in
        let early = Copied-later L h k j x y first second.extends in
        let late = Copied-earlier list_layout h k j xs ys first.extends valids second in
        record {
          extends = early.extends;
          fresh = (early.fresh, late.fresh);
          same = ap₂ ◌∷◌ early.same late.same;
        }

  module _ {C D : Type 0} (content : Cell → C) (L : Layout Cell C D) where
    abbrev view_ref : Heap Cell → Option ℕ → Option D
    view_ref h none = none
    view_ref h (some a) = some (L.view h (content (h.cell a)))

    abbrev RefWithin : ℕ → ℕ → Heap Cell → Option ℕ → Type 0
    RefWithin l u h none = Unit
    RefWithin l u h (some a) = (l ≤ a) × (a < u) × L.Within l u h (content (h.cell a))

    widen_ref :
        (l u l' u' : ℕ) (h : Heap Cell) (r : Option ℕ)
        → l' ≤ l
        → u ≤ u'
        → RefWithin l u h r
        → RefWithin l' u' h r
    widen_ref l u l' u' h none low high w = tt
    widen_ref l u l' u' h (some a) low high (above, below, w) = (
      omega (arith, low, above),
      omega (arith, high, below),
      L.widen l u l' u' h (content (h.cell a)) low high w,
    )

    agree_ref :
        (l u : ℕ) (h k : Heap Cell) (r : Option ℕ)
        → ((a : ℕ) → l ≤ a → a < u → k.cell a ≡ h.cell a)
        → RefWithin l u h r
        → RefWithin l u k r × (view_ref k r ≡ view_ref h r)
    agree_ref l u h k none same w = (tt, refl)
    agree_ref l u h k (some a) same (above, below, w) =
        let e = ap content (same a above below) in
        let (within, same_view) = L.agree l u h k (content (h.cell a)) same w in
        (
          (above, below, subst (L.Within l u k) (sym e) within),
          ap some (ap (L.view k) e ∙ same_view),
        )

    -- A slice or a map that may be nil
    unfoldable pub ref_layout : Layout Cell (Option ℕ) (Option D)
    unfolding widen_ref agree_ref
    ref_layout = record {
      view = view_ref;
      Within = RefWithin;
      widen = widen_ref;
      agree = agree_ref;
    }

    pub copy_ref-IsCopier :
        (put : C → Cell) (copy : C → Heap Cell → C × Heap Cell)
        → ((c : C) → content (put c) ≡ c)
        → IsCopier L copy
        → IsCopier ref_layout (copy_ref content put copy)
    unfolding ref_layout alloc
    copy_ref-IsCopier put copy back copies h none valid = record {
      extends = Extends-refl h;
      fresh = tt;
      same = refl;
    }
    copy_ref-IsCopier put copy back copies h (some a) (_, below, valid) =
        let (c, k) = copy (content (h.cell a)) h in
        let j = (alloc (put c) k).1 in
        let first = copies h (content (h.cell a)) valid in
        let later = Copied-later L h k j (content (h.cell a)) c first (alloc-Extends (put c) k) in
        let e = ap content (alloc-here (put c) k) ∙ back c in
        record {
          extends = later.extends;
          fresh = (
            first.extends.grows,
            omega arith,
            subst (L.Within h.next j.next j) (sym e) later.fresh,
          );
          same = ap some (ap (L.view j) e ∙ later.same);
        }

  -- A part of a struct
  abbrev pub via : {S X A : Type 0} → (S → X) → Layout Cell X A → Layout Cell S A
  via f L = record {
    view = λ h s. L.view h (f s);
    Within = λ l u h s. L.Within l u h (f s);
    widen = λ l u l' u' h s. L.widen l u l' u' h (f s);
    agree = λ l u h k s. L.agree l u h k (f s);
  }

  -- Two parts of a struct
  abbrev pub both : {S A B : Type 0} → Layout Cell S A → Layout Cell S B → Layout Cell S (A × B)
  both L M = record {
    view = λ h s. (L.view h s, M.view h s);
    Within = λ l u h s. L.Within l u h s × M.Within l u h s;
    widen = λ l u l' u' h s low high w.
        (L.widen l u l' u' h s low high w.0, M.widen l u l' u' h s low high w.1);
    agree = λ l u h k s same w.
        let (v, e) = L.agree l u h k s same w.0 in
        let (v', e') = M.agree l u h k s same w.1 in ((v, v'), ap₂ (λ a b. (a, b)) e e');
  }

  pub via-Copied :
      {S X A : Type 0} (f : S → X) (L : Layout Cell X A) (h k : Heap Cell) (s t : S)
      → Copied L h (f s) k (f t)
      → Copied (via f L) h s k t
  via-Copied f L h k s t c = record { extends = c.extends; fresh = c.fresh; same = c.same }

  pub both-Copied :
      {S A B : Type 0} (L : Layout Cell S A) (M : Layout Cell S B) (h k : Heap Cell) (s t : S)
      → Copied L h s k t
      → Copied M h s k t
      → Copied (both L M) h s k t
  both-Copied L M h k s t c d = record {
    extends = c.extends;
    fresh = (c.fresh, d.fresh);
    same = ap₂ (λ a b. (a, b)) c.same d.same;
  }

  -- The entries of a map
  abbrev pub entries_layout : {X A : Type 0} → Layout Cell X A → Layout Cell (Map X) (Map A)
  entries_layout {X} L =
      list_layout
        (both (via (λ (e : Text × X). e.0) (value_layout Text)) (via (λ (e : Text × X). e.1) L))

  pub copy_entries-IsCopier :
      {X A : Type 0} (L : Layout Cell X A) (copy : X → Heap Cell → X × Heap Cell)
      → IsCopier L copy
      → IsCopier (entries_layout L) (copy_entries copy)
  copy_entries-IsCopier {X} L copy copies =
      copy_elements-IsCopier _ (copy_entry copy) (λ h (key, x) (_, valid).
        let (v, k) = copy x h in
        let c = copies h x valid in
        both-Copied (via (λ (e : Text × X). e.0) (value_layout Text))
          (via (λ (e : Text × X). e.1) L) h k (key, x) (key, v)
          (record { extends = c.extends; fresh = tt; same = refl })
          (via-Copied (λ (e : Text × X). e.1) L h k (key, x) (key, v) c))

  -- A copy that is made after others, and that those stay.
  pub copy_next :
      {X A : Type 0} (L : Layout Cell X A) (copy : X → Heap Cell → X × Heap Cell) (h k : Heap Cell)
      (x : X)
      → IsCopier L copy
      → Extends h k
      → IsValid L h x
      → Copied L h x (copy x k).1 (copy x k).0 × Extends k (copy x k).1
  copy_next L copy h k x copies e valid =
      let made = copies k x (IsValid-Extends L h k x e valid).0 in
      (Copied-earlier L h k (copy x k).1 x (copy x k).0 e valid made, made.extends)
