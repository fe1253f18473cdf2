-- ===== src/Seal/Env/Filter.antt =====
-- Which variables the sealed process gets.
use podlock.Prelude.{
  ◌≡◌, refl, ◌∙◌, ap, Bool, ◌&&◌, not, List, [], ◌∷◌, Text, contains, nat_eq, text_eq,
  if◌then◌else◌, inl, inr, Bool-cases,
}
use podlock.Strings.{has_prefix, cut_at}
use podlock.Strings.Laws.{Lacks}
use podlock.Strings.Cut.{cut_at-cases, has_prefix_before}
use podlock.Seal.Env.{seal_env_var_prefix, keep_variable, sealed_process_env}

abbrev pub where_true {ℓ} : {A : Type ℓ} → (A → Bool) → List A → List A
where_true keep [] = []
where_true keep (x ∷ xs) = let rest = where_true keep xs in if keep x then x ∷ rest else rest

-- A variable is a text with `=` in it, and the variables of `seal` start with `SEAL_`.
abbrev pub is_passed_on : Text → Bool
is_passed_on kv = contains kv b'=' && not (has_prefix kv seal_env_var_prefix)

seal_env_var_prefix-Lacks : Lacks b'=' seal_env_var_prefix
unfolding nat_eq
seal_env_var_prefix-Lacks = refl

keep_variable-eq :
    (kv : Text) (rest : List Text)
    → keep_variable kv (cut_at b'=' kv) rest ≡ (if is_passed_on kv then kv ∷ rest else rest)
keep_variable-eq kv rest = elim (cut_at-cases b'=' kv) [
  | inl (uncut, lacks) ↦ rw (uncut, lacks) refl
  | inr c ↦
      let same : has_prefix kv seal_env_var_prefix ≡ has_prefix c.before seal_env_var_prefix =
        ap (λ (s : Text). has_prefix s seal_env_var_prefix) c.whole
        ∙ has_prefix_before b'=' c.before c.after seal_env_var_prefix seal_env_var_prefix-Lacks in
      elim (Bool-cases (has_prefix c.before seal_env_var_prefix)) [
        | inl hidden ↦ rw (c.cut, c.inside, same, hidden) refl
        | inr shown ↦ rw (c.cut, c.inside, same, shown) refl
      ]
]

-- The sealed process gets exactly the entries of the environment that contain `=` and do not start
-- with `SEAL_`, in their order and unchanged.
pub sealed_process_env-eq :
    (environ : List Text) → sealed_process_env environ ≡ where_true is_passed_on environ
unfolding sealed_process_env
sealed_process_env-eq [] = refl
sealed_process_env-eq (kv ∷ environ) =
    keep_variable-eq kv (sealed_process_env environ)
    ∙ ap (λ (rest : List Text). if is_passed_on kv then kv ∷ rest else rest)
        (sealed_process_env-eq environ)
