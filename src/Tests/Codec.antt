-- ===== src/Tests/Codec.antt =====
-- An encoder of the lists of binaries that sorts them by their names, as the one of JSON does, and
-- its decoder. Texts and lists are written behind their lengths.
use podlock.Prelude.{
  ℕ, zero, suc, ◌≡◌, refl, sym, ap, ◌∙◌, subst, Bool, true, false, some, List, [], ◌∷◌, ◌++◌, Text,
  length, ltb, text_eq, nat_eq, if◌then◌else◌, arith, codes,
}
use podlock.Fallible
use podlock.Map.{lookup}
use podlock.Io.{Result, ok}
use podlock.Api.{Profile, ProfileByBinary, LandlockProfile}
use podlock.Controller.Client.{ObjectKey}
use podlock.Nri.Plugin.{profile_of}
use podlock.Pipeline.Confined.{ReadsBack}
use podlock.Tests.Data.{good, nginx, nginx_binaries}

abbrev precedes : Text → Text → Bool
precedes [] t = true
precedes (c ∷ s) [] = false
precedes (c ∷ s) (d ∷ t) =
    let rest = precedes s t in if ltb c d then true else if ltb d c then false else rest

abbrev place : Text × Profile → ProfileByBinary → ProfileByBinary
place e [] = e ∷ []
place e (f ∷ m) = let rest = place e m in if precedes e.0 f.0 then e ∷ f ∷ m else f ∷ rest

abbrev sorted : ProfileByBinary → ProfileByBinary
sorted [] = []
sorted (e ∷ m) = place e (sorted m)

abbrev put_text : Text → Text
put_text t = length t ∷ t

abbrev put_each : List Text → Text
put_each [] = []
put_each (t ∷ ts) = put_text t ++ put_each ts

abbrev put_texts : List Text → Text
put_texts ts = length ts ∷ put_each ts

abbrev put_entries : ProfileByBinary → Text
put_entries [] = []
put_entries ((b, p) ∷ m) =
    put_text b
    ++ (put_texts p.read_only
        ++ (put_texts p.read_write
            ++ (put_texts p.read_exec ++ (put_texts p.read_write_exec ++ put_entries m))))

abbrev written : ProfileByBinary → Text
written m = length m ∷ put_entries (sorted m)

abbrev pub encode : ProfileByBinary → Result Text
encode m = ok (written m)

abbrev take : ℕ → Text → Text × Text
take zero s = ([], s)
take (suc n) [] = ([], [])
take (suc n) (c ∷ s) = let (t, rest) = take n s in (c ∷ t, rest)

abbrev get_text : Text → Text × Text
get_text [] = ([], [])
get_text (n ∷ s) = take n s

abbrev get_each : ℕ → Text → List Text × Text
get_each zero s = ([], s)
get_each (suc n) s =
    let (t, after) = get_text s in let (ts, rest) = get_each n after in (t ∷ ts, rest)

abbrev get_texts : Text → List Text × Text
get_texts [] = ([], [])
get_texts (n ∷ s) = get_each n s

abbrev get_entries : ℕ → Text → ProfileByBinary
get_entries zero s = []
get_entries (suc n) s =
    let (b, s0) = get_text s in
    let (ro, s1) = get_texts s0 in
    let (rw_, s2) = get_texts s1 in
    let (rx, s3) = get_texts s2 in
    let (rwx, s4) = get_texts s3 in
    (b, record { read_only = ro; read_write = rw_; read_exec = rx; read_write_exec = rwx })
    ∷ get_entries n s4

abbrev pub decode : Text → podlock.Fallible.Result ProfileByBinary
decode [] = podlock.Fallible.err (codes "EOF")
decode (n ∷ s) = podlock.Fallible.ok (get_entries n s)

-- What the file of the profile has.
abbrev pub good_file : Text
good_file = written nginx_binaries

-- The two binaries come back in the other order.
abbrev by_name : ProfileByBinary
by_name = (codes "/bin/sh", nginx) ∷ (codes "/usr/sbin/nginx", nginx) ∷ []

decode_by_name : decode good_file ≡ podlock.Fallible.ok by_name
decode_by_name = refl

by_name-same : (b : Text) → lookup b by_name ≡ lookup b nginx_binaries
unfolding lookup
by_name-same b = ground arith

good_list :
    (m : ProfileByBinary)
    → profile_of good (record { name = codes "nginx" }) ≡ some m
    → nginx_binaries ≡ m
unfolding lookup text_eq
good_list m h = cc h

-- The lists of a cache that has this profile only are read back.
pub good-ReadsBack :
    (get : ObjectKey → Result LandlockProfile)
    → ((k : ObjectKey) (p : LandlockProfile) → get k ≡ ok p → good ≡ p)
    → ReadsBack encode get (record { name = codes "nginx" }) decode
good-ReadsBack get only k p m c got of_container written_ok =
    let at_good : profile_of good (record { name = codes "nginx" }) ≡ some m =
      subst (λ (q : LandlockProfile). profile_of q (record { name = codes "nginx" }) ≡ some m)
        (sym (only k p got)) of_container in
    let same_list = good_list m at_good in
    let same_text : good_file ≡ c = cc (ap encode same_list ∙ written_ok) in
    (
      by_name,
      ap decode (sym same_text) ∙ decode_by_name,
      λ b. by_name-same b ∙ ap (lookup b) same_list,
    )
