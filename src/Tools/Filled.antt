-- ===== src/Tools/Filled.antt =====
-- What a server is given for the fields of a tool.
use mathlib.Core.Bool.{false≢true}
use codeforge.Prelude.{
  ◌≡◌, ◌⊎◌, refl, sym, ap, ◌∙◌, eq_iff, String, Bool, true, false, ◌||◌, List, [], ◌∷◌, arith,
  Bool-cases, inl, inr, if◌then◌else◌, ◌=s◌, eq_refl, value_of, set_key,
}
use codeforge.Session.Listing.Pages.{All}
use codeforge.Tools.{ConfigField, with_field, map_config_to_env}

-- The key stands in the map with a value that is not empty.
abbrev pub IsFilled : String → List (String × String) → Type 0
IsFilled k m = (value_of k m =s "") ≡ false

set_key-new :
    (k v : String) (m : List (String × String)) → (v =s "") ≡ false → IsFilled k (set_key k v m)
set_key-new k v [] h = rw (eq_refl k) h
set_key-new k v ((j, u) ∷ rest) h = elim (Bool-cases (j =s k)) [
  | inl e ↦ rw e (rw (eq_refl k) h)
  | inr e ↦ rw e (rw e (set_key-new k v rest h))
]

set_key-IsFilled :
    (k j v : String) (m : List (String × String))
    → (v =s "") ≡ false
    → IsFilled k m
    → IsFilled k (set_key j v m)
set_key-IsFilled k j v [] h filled = absurd (false≢true (sym filled))
set_key-IsFilled k j v ((i, u) ∷ rest) h filled = elim (Bool-cases (i =s j)) [
  | inl e ↦
      rw e (
        replaced (j =s k) λ d. unpicked (i =s k) u (ap (λ x. x =s k) ((eq_iff i j).0 e) ∙ d) filled)
  | inr e ↦ rw e (passed (i =s k) filled (set_key-IsFilled k j v rest h))
]
  where
    replaced :
        (b : Bool)
        → (b ≡ false → IsFilled k rest)
        → ((if b then v else value_of k rest) =s "") ≡ false
    replaced true q = h
    replaced false q = q refl

    unpicked :
        (b : Bool) (x : String)
        → b ≡ false
        → ((if b then x else value_of k rest) =s "") ≡ false
        → IsFilled k rest
    unpicked true x e q = absurd (false≢true (sym e))
    unpicked false x e q = q

    passed :
        (b : Bool)
        → ((if b then u else value_of k rest) =s "") ≡ false
        → (IsFilled k rest → IsFilled k (set_key j v rest))
        → ((if b then u else value_of k (set_key j v rest)) =s "") ≡ false
    passed true p q = p
    passed false p q = q p

with_field-IsFilled :
    (k : String) (config : List (String × String)) (f : ConfigField) (env : List (String × String))
    → IsFilled k env
    → IsFilled k (with_field config f env)
with_field-IsFilled k config f env h =
    elim (Bool-cases (f.env_var =s "" || value_of f.name config =s "")) [
      | inl e ↦ rw e h
      | inr e ↦ rw e (set_key-IsFilled k f.env_var (value_of f.name config) env (ground arith) h)
    ]

map_config_to_env-IsFilled :
    (k : String) (fs : List ConfigField) (config env : List (String × String))
    → IsFilled k env
    → IsFilled k (map_config_to_env fs config env)
unfolding map_config_to_env
map_config_to_env-IsFilled k [] config env h = h
map_config_to_env-IsFilled k (f ∷ fs) config env h =
    map_config_to_env-IsFilled k fs config (with_field config f env)
      (with_field-IsFilled k config f env h)

-- A field has no variable, or its variable is there.
abbrev pub IsSupplied : List (String × String) → ConfigField → Type 0
IsSupplied env f = ((f.env_var =s "") ≡ true) ⊎ IsFilled f.env_var env

with_field-IsSupplied :
    (config : List (String × String)) (f : ConfigField) (env : List (String × String))
    → IsFilled f.name config
    → IsSupplied (with_field config f env) f
with_field-IsSupplied config f env h = elim (Bool-cases (f.env_var =s "")) [
  | inl e ↦ inl e
  | inr e ↦ inr (rw (e, h) (set_key-new f.env_var (value_of f.name config) env h))
]

kept :
    (fs : List ConfigField) (config env : List (String × String)) (f : ConfigField)
    → IsSupplied env f
    → IsSupplied (map_config_to_env fs config env) f
kept fs config env f (inl e) = inl e
kept fs config env f (inr h) = inr (map_config_to_env-IsFilled f.env_var fs config env h)

-- A configuration that has all required fields supplies them all.
pub mapped-IsSupplied :
    (fs : List ConfigField) (config env : List (String × String))
    → All (λ f. IsFilled f.name config) fs
    → All (IsSupplied (map_config_to_env fs config env)) fs
unfolding map_config_to_env
mapped-IsSupplied [] config env h = tt
mapped-IsSupplied (f ∷ fs) config env (p, h) = (
  kept fs config (with_field config f env) f (with_field-IsSupplied config f env p),
  mapped-IsSupplied fs config (with_field config f env) h,
)

pub All-kept :
    (fs gs : List ConfigField) (config env : List (String × String))
    → All (IsSupplied env) gs
    → All (IsSupplied (map_config_to_env fs config env)) gs
All-kept fs [] config env h = tt
All-kept fs (g ∷ gs) config env (p, h) = (kept fs config env g p, All-kept fs gs config env h)
