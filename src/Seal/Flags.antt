-- ===== src/Seal/Flags.antt =====
-- The flags of the seal (cmd/seal/cli.go).
use podlock.Prelude.{
  Bool, false, Option, none, some, List, [], Text, codes, ◌==◌, text_eq, nat_eq, if◌then◌else◌,
}
use podlock.Fallible.{ok, ◌>>=◌}
use podlock.Sets.{StringSets}
use podlock.Flags.{Flag, value_flag, bool_flag, parse_bool}
use podlock.Seal.Config.{set_log_format}

module _ (S : StringSets) where
  -- StringSetFlag, where `none` is the nil set
  abbrev pub StringSetFlag : Type 0
  StringSetFlag = Option S.Set

  -- StringSetFlag.Set
  unfoldable pub set_string : Text → StringSetFlag → StringSetFlag
  set_string value none = some (S.insert (S.new []) value)
  set_string value (some s) = some (S.insert s value)

  -- Values.UnsortedList()
  abbrev pub list_of : StringSetFlag → List Text
  list_of none = []
  list_of (some s) = S.list s

  -- The variables that the flags of `nativeMode` are bound to.
  pub record Flags : Type 0 where
    pub ro : StringSetFlag
    pub rx : StringSetFlag
    pub rw_ : StringSetFlag
    pub rwx : StringSetFlag
    pub log_level : Text
    pub log_format : Text
    pub ldd : Bool

  abbrev pub no_flags : Flags
  no_flags = record {
    ro = none;
    rx = none;
    rw_ = none;
    rwx = none;
    log_level = codes "info";
    log_format = [];
    ldd = false;
  }

  unfoldable pub formal : Text → Option (Flag Flags)
  unfolding set_string
  formal name =
      if name == codes "ro"
      then some (value_flag (λ v f. ok (record f { ro = set_string v f.ro })))
      else if name == codes "rx"
      then some (value_flag (λ v f. ok (record f { rx = set_string v f.rx })))
      else if name == codes "rw"
      then some (value_flag (λ v f. ok (record f { rw_ = set_string v f.rw_ })))
      else if name == codes "rwx"
      then some (value_flag (λ v f. ok (record f { rwx = set_string v f.rwx })))
      else if name == codes "log-level"
      then some (value_flag (λ v f. ok (record f { log_level = v })))
      else if name == codes "log-format"
      then some (value_flag (λ v f. set_log_format v >>= λ x. ok (record f { log_format = x })))
      else if name == codes "ldd"
      then some (bool_flag (λ v f. parse_bool v >>= λ b. ok (record f { ldd = b })))
      else none
