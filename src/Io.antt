-- ===== src/Io.antt =====
-- Code that changes the file system and may fail. What was done before a failure stays done, so the
-- state comes back beside the error too.
use podlock.Prelude.{◌≡◌, Bool, refl, Text, ◌++◌, codes}

-- An error of Go, wrapped by fmt.Errorf with %w as often as the code does: the messages, and
-- whether errors.Is(err, os.ErrNotExist).
pub record IoError : Type 0 where
  pub message : Text
  pub not_exist : Bool

pub data Result {ℓ} (A : Type ℓ) : Type ℓ where
  ok : A → Result A
  err : IoError → Result A

abbrev pub Io {ℓ} : Type ℓ → Type ℓ → Type ℓ
Io S A = S → Result A × S

module _ {ℓ} {S A : Type ℓ} where
  abbrev pub pure : A → Io S A
  pure a s = (ok a, s)

  abbrev pub raise : IoError → Io S A
  raise e s = (err e, s)

  abbrev pub lift : Result A → Io S A
  lift r s = (r, s)

abbrev pub continue {ℓ} : {S A B : Type ℓ} → Result A → (A → Io S B) → Io S B
continue (ok a) f s = f a s
continue (err e) f s = (err e, s)

abbrev pub wrap_error : Text → IoError → IoError
wrap_error message e = record e { message = message ++ (codes ": " ++ e.message) }

-- fmt.Errorf("…: %w", err)
abbrev pub wrap_result {ℓ} : {A : Type ℓ} → Text → Result A → Result A
wrap_result message (ok a) = ok a
wrap_result message (err e) = err (wrap_error message e)

abbrev pub wrap {ℓ} : {S A : Type ℓ} → Text → Io S A → Io S A
wrap message m s = let (r, t) = m s in (wrap_result message r, t)

infixl 10 ◌>>=◌ ◌>>◌
unfoldable pub ◌>>=◌ {ℓ} : {S A B : Type ℓ} → Io S A → (A → Io S B) → Io S B
◌>>=◌ m f s = continue (m s).0 f (m s).1

abbrev pub ◌>>◌ {ℓ} : {S A B : Type ℓ} → Io S A → Io S B → Io S B
m >> n = m >>= λ _. n

-- A relation between the states before and after that every run of an action keeps to.
abbrev pub Frame {ℓ} : {S A : Type ℓ} → (S → S → Type ℓ) → Io S A → Type ℓ
Frame {S} R m = (s : S) → R s (m s).1

module _ {ℓ} {S : Type ℓ} (R : S → S → Type ℓ) (R-refl : (s : S) → R s s)
    (R-trans : (s t u : S) → R s t → R t u → R s u) where
  Frame-continue :
      {A B : Type ℓ} (r : Result A) (f : A → Io S B)
      → ((a : A) → Frame R (f a))
      → (s : S) → R s (continue r f s).1
  Frame-continue (ok a) f h s = h a s
  Frame-continue (err e) f h s = R-refl s

  pub Frame-bind :
      {A B : Type ℓ} (m : Io S A) (f : A → Io S B)
      → Frame R m
      → ((a : A) → Frame R (f a))
      → Frame R (m >>= f)
  unfolding ◌>>=◌
  Frame-bind m f hm hf s = R-trans s (m s).1 _ (hm s) (Frame-continue (m s).0 f hf (m s).1)

-- Inversion of a successful run: both parts succeed, one from the state that the other leaves.
module _ {ℓ} {S A B : Type ℓ} where
  pub record Ran (m : Io S A) (f : A → Io S B) (s : S) (b : B) : Type ℓ where
    pub value : A
    pub first : (m s).0 ≡ ok value
    pub second : (f value (m s).1).0 ≡ ok b
    pub last : ((m >>= f) s).1 ≡ (f value (m s).1).1

  continue-Ran :
      (m : Io S A) (f : A → Io S B) (s : S) (b : B) (r : Result A)
      → (m s).0 ≡ r
      → (continue r f (m s).1).0 ≡ ok b
      → Ran m f s b
  unfolding ◌>>=◌
  continue-Ran m f s b (ok a) e h = record { value = a; first = e; second = h; last = rw e }
  continue-Ran m f s b (err x) e h = absurd (cc)

  pub bind-Ran :
      (m : Io S A) (f : A → Io S B) (s : S) (b : B) → ((m >>= f) s).0 ≡ ok b → Ran m f s b
  unfolding ◌>>=◌
  bind-Ran m f s b h = continue-Ran m f s b (m s).0 refl h

pub wrap_result-ok {ℓ} :
    {A : Type ℓ} (message : Text) (r : Result A) (a : A) → wrap_result message r ≡ ok a → r ≡ ok a
wrap_result-ok message (ok b) a h = h
wrap_result-ok message (err e) a h = absurd (cc)
