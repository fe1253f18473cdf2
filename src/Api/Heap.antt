-- ===== src/Api/Heap.antt =====
-- The memory of the slices and maps of the API types, and what a deep copy of a value is. A struct
-- is a value; a slice or a map that is not nil is the address of a cell.
use podlock.Prelude.{
  ◌≡◌, refl, ◌∙◌, ℕ, suc, ◌≤◌, ◌<◌, Option, none, some, List, [], ◌∷◌, Text, ◌==◌, nat_eq, arith,
  if◌then◌else◌,
}
use podlock.Map.{Map}

-- The addresses below `next` are in use.
pub record Heap (Cell : Type 0) : Type 0 where
  pub next : ℕ
  pub cell : ℕ → Cell

module _ {Cell : Type 0} where
  -- make, and the filling of what was made before its address is given to anybody
  unfoldable pub alloc : Cell → Heap Cell → ℕ × Heap Cell
  alloc c h =
      (h.next, record { next = suc h.next; cell = λ a. if a == h.next then c else h.cell a })

  -- The copy of a slice or a map, where `copy` copies its elements and `put` makes a cell of them.
  abbrev pub copy_ref :
      {C : Type 0}
      → (Cell → C)
      → (C → Cell)
      → (C → Heap Cell → C × Heap Cell)
      → Option ℕ
      → Heap Cell
      → Option ℕ × Heap Cell
  copy_ref content put copy none h = (none, h)
  copy_ref content put copy (some a) h =
      let (c, k) = copy (content (h.cell a)) h in let (b, j) = alloc (put c) k in (some b, j)

  -- The copy of the elements of a slice, one after the other
  unfoldable pub copy_elements :
      {X : Type 0} → (X → Heap Cell → X × Heap Cell) → List X → Heap Cell → List X × Heap Cell
  copy_elements copy [] h = ([], h)
  copy_elements copy (x ∷ xs) h =
      let (y, k) = copy x h in let (ys, j) = copy_elements copy xs k in (y ∷ ys, j)

  abbrev pub copy_entry :
      {X : Type 0} → (X → Heap Cell → X × Heap Cell) → Text × X → Heap Cell → (Text × X) × Heap Cell
  copy_entry copy (key, val) h = let (v, k) = copy val h in ((key, v), k)

  -- The copy of the entries of a map, whose keys are distinct, so that each round adds an entry.
  abbrev pub copy_entries :
      {X : Type 0} → (X → Heap Cell → X × Heap Cell) → Map X → Heap Cell → Map X × Heap Cell
  copy_entries copy = copy_elements (copy_entry copy)

  -- Nothing that was in use has changed.
  pub record Extends (h k : Heap Cell) : Type 0 where
    pub grows : h.next ≤ k.next
    pub kept : (a : ℕ) → a < h.next → k.cell a ≡ h.cell a

  pub Extends-refl : (h : Heap Cell) → Extends h h
  Extends-refl h = record { grows = omega arith; kept = λ a _. refl }

  pub Extends-trans : (h k j : Heap Cell) → Extends h k → Extends k j → Extends h j
  Extends-trans h k j e f = record {
    grows = omega (arith, e.grows, f.grows);
    kept = λ a l. f.kept a (omega (arith, e.grows, l)) ∙ e.kept a l;
  }

  pub alloc-Extends : (c : Cell) (h : Heap Cell) → Extends h (alloc c h).1
  unfolding alloc
  alloc-Extends c h = record { grows = omega arith; kept = λ a l. ground arith }

  pub alloc-here : (c : Cell) (h : Heap Cell) → (alloc c h).1.cell h.next ≡ c
  unfolding alloc
  alloc-here c h = ground arith

-- How values of Go are laid out in the memory: what they stand for, and that all addresses that
-- they lead to are in a range.
pub record Layout (Cell X A : Type 0) : Type 1 where
  pub view : Heap Cell → X → A
  pub Within : ℕ → ℕ → Heap Cell → X → Type 0
  pub widen :
      (l u l' u' : ℕ) (h : Heap Cell) (x : X) → l' ≤ l → u ≤ u' → Within l u h x → Within l' u' h x
  -- A memory with the same cells in the range gives the same value.
  pub agree :
      (l u : ℕ) (h k : Heap Cell) (x : X)
      → ((a : ℕ) → l ≤ a → a < u → k.cell a ≡ h.cell a)
      → Within l u h x
      → Within l u k x × (view k x ≡ view h x)

module _ {Cell : Type 0} where
  -- `y` in `k` is a deep copy of `x` in `h`: it stands for the same, at new addresses only.
  pub record Copied {X A : Type 0} (L : Layout Cell X A) (h : Heap Cell) (x : X) (k : Heap Cell)
      (y : X) : Type 0 where
    pub extends : Extends h k
    pub fresh : L.Within h.next k.next k y
    pub same : L.view k y ≡ L.view h x

  -- The value leads to addresses in use only.
  abbrev pub IsValid : {X A : Type 0} → Layout Cell X A → Heap Cell → X → Type 0
  IsValid L h x = L.Within 0 h.next h x

  abbrev pub IsCopier : {X A : Type 0} → Layout Cell X A → (X → Heap Cell → X × Heap Cell) → Type 0
  IsCopier {X} L copy =
      (h : Heap Cell) (x : X) → IsValid L h x → Copied L h x (copy x h).1 (copy x h).0

  module _ {X A : Type 0} (L : Layout Cell X A) where
    pub IsValid-Extends :
        (h k : Heap Cell) (x : X)
        → Extends h k
        → IsValid L h x
        → IsValid L k x × (L.view k x ≡ L.view h x)
    IsValid-Extends h k x e valid =
        let (within, same) = L.agree 0 h.next h k x (λ a _ l. e.kept a l) valid in
        (L.widen 0 h.next 0 k.next k x (omega arith) e.grows within, same)

    -- A copy stays one while the memory grows.
    pub Copied-later :
        (h k j : Heap Cell) (x y : X) → Copied L h x k y → Extends k j → Copied L h x j y
    Copied-later h k j x y c e =
        let (within, same) = L.agree h.next k.next k j y (λ a _ l. e.kept a l) c.fresh in
        record {
          extends = Extends-trans h k j c.extends e;
          fresh = L.widen h.next k.next h.next j.next j y (omega arith) e.grows within;
          same = same ∙ c.same;
        }

    -- What is copied later is a copy of what was there before.
    pub Copied-earlier :
        (h k j : Heap Cell) (x y : X)
        → Extends h k
        → IsValid L h x
        → Copied L k x j y
        → Copied L h x j y
    Copied-earlier h k j x y e valid c = record {
      extends = Extends-trans h k j e c.extends;
      fresh = L.widen k.next j.next h.next j.next j y e.grows (omega arith) c.fresh;
      same = c.same ∙ (IsValid-Extends h k x e valid).1;
    }

    -- After writes to the addresses that were in use before, the copy stands for the same as ever,
    -- and after writes to those that have come into use, the original does.
    pub Copied-IsApart :
        (h k i j : Heap Cell) (x y : X)
        → Copied L h x k y
        → IsValid L h x
        → ((a : ℕ) → h.next ≤ a → a < k.next → i.cell a ≡ k.cell a)
        → ((a : ℕ) → a < h.next → j.cell a ≡ k.cell a)
        → (L.view i y ≡ L.view h x) × (L.view j x ≡ L.view h x)
    Copied-IsApart h k i j x y c valid through_original through_copy = (
      (L.agree h.next k.next k i y through_original c.fresh).1 ∙ c.same,
      (L.agree 0 h.next h j x (λ a _ l. through_copy a l ∙ c.extends.kept a l) valid).1,
    )
