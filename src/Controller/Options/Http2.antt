-- ===== src/Controller/Options/Http2.antt =====
-- Without the flag that asks for HTTP/2, the two servers of the controller do not speak it.
use podlock.Prelude.{
  ◌≡◌, ◌≢◌, ◌⊎◌, inl, inr, refl, sym, ap, ◌∙◌, Bool, false, Option, none, some, List, [], ◌∷◌, Text,
  codes, foldl, All, ◌==◌, text_eq, arith, Bool-cases,
}
use podlock.Fallible.{Result, ok, err, >>=-eq-ok}
use podlock.Map.{Map, lookup}
use podlock.Flags.{Flag, value_flag, bool_flag, parse_bool, parse}
use podlock.Flags.Invariant.{FoundKeeps, FlagKeeps, IsAllowed, parse-Keeps}
use podlock.Controller.Options.{
  Options, TlsConfig, TlsOption, default_options, text_flag, yes_no_flag, zap_flag, or_zap,
  own_flags, controller_flags, disable_http2, manager_options,
}

-- A server whose TLS configuration is changed by these offers HTTP/1.1 only.
abbrev pub IsHttp1 : List TlsOption → Type 0
IsHttp1 options =
    (c : TlsConfig)
    → (foldl (λ (d : TlsConfig) (f : TlsOption). f d) c options).next_protos ≡ codes "http/1.1" ∷ []

-- The argument does not set the flag `-enable-http2`.
abbrev pub NotAsked : Text → Type 0
NotAsked = IsAllowed (λ name. name ≢ codes "enable-http2")

module _ {Z : Type 0} where
  abbrev pub IsOff : Options Z → Type 0
  IsOff o = o.enable_http2 ≡ false

  abbrev is_on : Result (Options Z) → Bool
  is_on (ok o) = o.enable_http2
  is_on (err e) = false

  text_flag-Keeps :
      (set : Text → Options Z → Options Z)
      → ((v : Text) (o : Options Z) → IsOff o → IsOff (set v o))
      → FlagKeeps IsOff (text_flag set)
  text_flag-Keeps set h v f g e hf = ap is_on (sym e) ∙ h v f hf

  yes_no_flag-Keeps :
      (set : Bool → Options Z → Options Z)
      → ((b : Bool) (o : Options Z) → IsOff o → IsOff (set b o))
      → FlagKeeps IsOff (yes_no_flag set)
  yes_no_flag-Keeps set h v f g e hf =
      let (b, _, there) = >>=-eq-ok (parse_bool v) (λ b. ok (set b f)) g e in
      ap is_on (sym there) ∙ h b f hf

  zap_flag-Keeps : (x : Flag Z) → FlagKeeps IsOff (zap_flag x)
  zap_flag-Keeps (value_flag set) = λ v f g e hf.
      let (z, _, there) = >>=-eq-ok (set v f.zap) (λ z. ok (record f { zap = z })) g e in
      ap is_on (sym there) ∙ hf
  zap_flag-Keeps (bool_flag set) = λ v f g e hf.
      let (z, _, there) = >>=-eq-ok (set v f.zap) (λ z. ok (record f { zap = z })) g e in
      ap is_on (sym there) ∙ hf

  abbrev EntryKeeps : Text × Flag (Options Z) → Type 0
  EntryKeeps (key, x) = (key ≡ codes "enable-http2") ⊎ FlagKeeps IsOff x

  or_zap-Keeps :
      (m : Map (Flag (Options Z))) (z : Option (Flag Z)) (name : Text)
      → name ≢ codes "enable-http2"
      → All EntryKeeps m
      → FoundKeeps IsOff (or_zap (lookup name m) z)
  unfolding lookup
  or_zap-Keeps [] none name other keep = tt
  or_zap-Keeps [] (some z) name other keep = zap_flag-Keeps z
  or_zap-Keeps ((key, x) ∷ m) z name other (keep, keeps) = elim (Bool-cases (name == key)) [
    | inl same ↦
        let named : name ≡ key = ground arith in
        rw same (elim keep [ inl e ↦ absurd (other (named ∙ e)) | inr h ↦ h ])
    | inr differ ↦ rw differ (or_zap-Keeps m z name other keeps)
  ]

  controller_flags-Keeps :
      (zap_flags : Text → Option (Flag Z)) (name : Text)
      → name ≢ codes "enable-http2"
      → FoundKeeps IsOff (controller_flags zap_flags name)
  unfolding controller_flags
  controller_flags-Keeps zap_flags name other = or_zap-Keeps own_flags (zap_flags name) name other (
    inr (text_flag-Keeps _ (λ v o h. h)),
    (
      inr (text_flag-Keeps _ (λ v o h. h)),
      (
        inr (yes_no_flag-Keeps _ (λ v o h. h)),
        (
          inr (yes_no_flag-Keeps _ (λ v o h. h)),
          (
            inr (text_flag-Keeps _ (λ v o h. h)),
            (
              inr (text_flag-Keeps _ (λ v o h. h)),
              (
                inr (text_flag-Keeps _ (λ v o h. h)),
                (
                  inr (text_flag-Keeps _ (λ v o h. h)),
                  (
                    inr (text_flag-Keeps _ (λ v o h. h)),
                    (inr (text_flag-Keeps _ (λ v o h. h)), (inl refl, tt)),
                  ),
                ),
              ),
            ),
          ),
        ),
      ),
    ),
  )

  pub parse-IsOff :
      (zap_flags : Text → Option (Flag Z)) (zap : Z) (args : List Text) (o : Options Z)
      → All NotAsked args
      → parse (controller_flags zap_flags) (default_options zap) none args ≡ ok o
      → IsOff o
  parse-IsOff zap_flags zap args o asked h =
      parse-Keeps IsOff (controller_flags zap_flags) (λ name. name ≢ codes "enable-http2")
        (controller_flags-Keeps zap_flags) args (default_options zap) o asked h refl

  pub manager_options-IsHttp1 :
      (o : Options Z)
      → IsOff o
      → IsHttp1 (manager_options o).webhook_server.tls_opts
        × IsHttp1 (manager_options o).metrics.tls_opts
  unfolding manager_options disable_http2
  manager_options-IsHttp1 o off = (λ c. ground arith, λ c. ground arith)

  -- The metrics are served with authentication exactly if they are served securely.
  pub manager_options-IsProtected :
      (o : Options Z)
      → (manager_options o).metrics.with_authentication ≡ (manager_options o).metrics.secure_serving
  unfolding manager_options
  manager_options-IsProtected o = ground arith
