-- ===== src/Flags/Invariant.antt =====
-- What holds of the variables through the parsing of the flags.
use podlock.Prelude.{◌≡◌, refl, Option, none, some, List, [], ◌∷◌, Text, codes, All, subst}
use podlock.Fallible.{Result, ok, ◌>>=◌, >>=-eq-ok}
use podlock.Flags.{
  Token, stop, bad_syntax, a_flag, token, Flag, value_flag, bool_flag, Step, finished, set_to,
  waits, step_flag, step, parse,
}

-- The flag that an argument sets, if it sets one, is allowed.
abbrev pub IsAllowed : (Text → Type 0) → Text → Type 0
IsAllowed Allowed arg =
    (name : Text) (value : Option Text) → token arg ≡ a_flag name value → Allowed name

module _ {V : Type 0} (P : V → Type 0) where
  abbrev pub SetKeeps : (Text → V → Result V) → Type 0
  SetKeeps set = (value : Text) (f g : V) → set value f ≡ ok g → P f → P g

  abbrev pub FlagKeeps : Flag V → Type 0
  FlagKeeps (value_flag set) = SetKeeps set
  FlagKeeps (bool_flag set) = SetKeeps set

  abbrev pub FoundKeeps : Option (Flag V) → Type 0
  FoundKeeps none = Unit
  FoundKeeps (some x) = FlagKeeps x

  abbrev PendingKeeps : Option (Text → V → Result V) → Type 0
  PendingKeeps none = Unit
  PendingKeeps (some set) = SetKeeps set

  abbrev StepKeeps : V → Step V → Type 0
  StepKeeps f finished = Unit
  StepKeeps f (set_to r) = (g : V) → r ≡ ok g → P f → P g
  StepKeeps f (waits set) = SetKeeps set

  step_flag-Keeps :
      (f : V) (value : Option Text) (flag : Option (Flag V))
      → FoundKeeps flag
      → StepKeeps f (step_flag f value flag)
  step_flag-Keeps f value none h = λ g e hf. absurd (cc)
  step_flag-Keeps f none (some (bool_flag set)) h = λ g e hf. h (codes "true") f g e hf
  step_flag-Keeps f (some v) (some (bool_flag set)) h = λ g e hf. h v f g e hf
  step_flag-Keeps f none (some (value_flag set)) h = h
  step_flag-Keeps f (some v) (some (value_flag set)) h = λ g e hf. h v f g e hf

  module _ (formal : Text → Option (Flag V)) (Allowed : Text → Type 0)
      (keeps : (name : Text) → Allowed name → FoundKeeps (formal name)) where
    step-Keeps :
        (f : V) (t : Token)
        → ((name : Text) (value : Option Text) → t ≡ a_flag name value → Allowed name)
        → StepKeeps f (step formal f t)
    unfolding step
    step-Keeps f stop h = tt
    step-Keeps f bad_syntax h = λ g e hf. absurd (cc)
    step-Keeps f (a_flag name value) h =
        step_flag-Keeps f value (formal name) (keeps name (h name value refl))

    after_step-Keeps :
        (f g : V) (args : List Text) (s : Step V)
        → ((h : V) (pending : Option (Text → V → Result V))
            → PendingKeeps pending
            → parse formal h pending args ≡ ok g
            → P h
            → P g)
        → StepKeeps f s
        → (elim s as (λ _. Result V) [
          | finished ↦ ok f
          | set_to r ↦ r >>= λ x. parse formal x none args
          | waits set ↦ parse formal f (some set) args
        ])
          ≡ ok g
        → P f
        → P g
    after_step-Keeps f g args finished rest keep e hf = subst P (cc) hf
    after_step-Keeps f g args (set_to r) rest keep e hf =
        let (x, there, parsed) = >>=-eq-ok r (λ x. parse formal x none args) g e in
        rest x none tt parsed (keep x there hf)
    after_step-Keeps f g args (waits set) rest keep e hf = rest f (some set) keep e hf

    parse-pending :
        (args : List Text) (f g : V) (pending : Option (Text → V → Result V))
        → All (IsAllowed Allowed) args
        → PendingKeeps pending
        → parse formal f pending args ≡ ok g
        → P f
        → P g
    unfolding parse
    parse-pending [] f g none allowed keep e hf = subst P (cc) hf
    parse-pending [] f g (some set) allowed keep e hf = absurd (cc)
    parse-pending (value ∷ args) f g (some set) allowed keep e hf =
        let (x, there, parsed) = >>=-eq-ok (set value f) (λ x. parse formal x none args) g e in
        parse-pending args x g none allowed.1 tt parsed (keep value f x there hf)
    parse-pending (arg ∷ args) f g none allowed keep e hf =
        after_step-Keeps f g args (step formal f (token arg))
          (λ h pending keep e hf. parse-pending args h g pending allowed.1 keep e hf)
          (step-Keeps f (token arg) allowed.0) e hf

    -- If the arguments set allowed flags only, what those keep holds after the parsing.
    pub parse-Keeps :
        (args : List Text) (f g : V)
        → All (IsAllowed Allowed) args
        → parse formal f none args ≡ ok g
        → P f
        → P g
    parse-Keeps args f g allowed = parse-pending args f g none allowed tt
