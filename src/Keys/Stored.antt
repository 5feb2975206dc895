-- ===== src/Keys/Stored.antt =====
-- Keys that are stored, and deleted.
use codeforge.Prelude.{
  ◌≡◌, refl, sym, subst, String, false, ◌&&◌, Option, none, some, List, [], ◌∷◌, ◌++◌, Bool-cases,
  inl, inr, ◌=s◌, eq_iff, eq_refl, contains, arith,
}
use codeforge.Session.World.{World, ok, err, up, reach}
use codeforge.Session.Service.{Cipher}
use codeforge.Session.Operations.Creation.{IsInvertible}
use codeforge.Keys.{
  Key, KeyRow, providers, find_key, find_by_name, rows_without, inserted, insert_encrypted,
  create_key, delete_key, remaining, resolve_key,
}

abbrev row_of : Key → String → KeyRow
row_of key token = record {
  name = key.name;
  provider = key.provider;
  encrypted_token = token;
  scope = key.scope;
  base_url = key.base_url;
}

found_last :
    (key : Key) (token : String) (rows : List KeyRow)
    → find_key key.provider key.name rows ≡ none
    → find_key key.provider key.name (rows ++ row_of key token ∷ []) ≡ some (row_of key token)
found_last key token [] h = rw (eq_refl key.provider, eq_refl key.name) refl
found_last key token (r ∷ rows) h =
    elim (Bool-cases (r.provider =s key.provider && r.name =s key.name)) [
      | inl e ↦ absurd (there (rw e at h))
      | inr e ↦ rw e (found_last key token rows (rw e at h))
    ]
  where
    there : some r ≡ none → ⊥
    there p = cc

inserted-ok :
    (key : Key) (token : String) (rows rows' : List KeyRow) (o : Option KeyRow) (w : World)
    → (inserted key token rows o w).0 ≡ ok rows'
    → (o ≡ none) × (rows ++ row_of key token ∷ [] ≡ rows')
inserted-ok key token rows rows' (some r) w h = absurd (cc)
inserted-ok key token rows rows' none w h = (refl, cc)

insert_encrypted-ok :
    (key : Key) (rows rows' : List KeyRow) (o : Option String) (w : World)
    → (insert_encrypted key rows o (up w)).0 ≡ ok rows'
    → (token : String) × (o ≡ some token)
      × (find_key key.provider key.name rows ≡ none)
      × (rows ++ row_of key token ∷ [] ≡ rows')
unfolding reach
insert_encrypted-ok key rows rows' none w h = absurd (cc)
insert_encrypted-ok key rows rows' (some token) w h =
    let (fresh, made) =
      inserted-ok key token rows rows' (find_key key.provider key.name rows) (up w) h in
    (token, refl, fresh, made)

open_found :
    (cipher : Cipher) (key : Key) (token : String) (rows : List KeyRow) (w : World)
    → find_key key.provider key.name rows ≡ some (row_of key token)
    → cipher.decrypt token ≡ some key.token
    → (resolve_key cipher rows key.provider key.name (up w)).0 ≡ ok key.token
unfolding resolve_key reach
open_found cipher key token rows w found opens = rw (found, opens) refl

-- A key that Create of the registry has stored is resolved to its token, the empty one included, by
-- its provider and name, with a cipher that takes back what it made, and makes the empty text of the
-- empty text alone, and where the queries work.
pub resolve_key-create_key :
    (cipher : Cipher) (nonce : String) (key : Key) (rows rows' : List KeyRow) (w v : World)
    → IsInvertible cipher
    → (create_key cipher nonce key rows (up w)).0 ≡ ok rows'
    → (resolve_key cipher rows' key.provider key.name (up v)).0 ≡ ok key.token
unfolding create_key
resolve_key-create_key cipher nonce key rows rows' w v law h =
    elim (Bool-cases (contains providers key.provider)) [
      | inr e ↦ absurd (refused (rw e at h))
      | inl e ↦
          let (token, encrypted, fresh, made) =
            insert_encrypted-ok key rows rows' (cipher.encrypt nonce key.token) w (rw e at h) in
          subst (λ rs. (resolve_key cipher rs key.provider key.name (up v)).0 ≡ ok key.token) made
            (open_found cipher key token (rows ++ row_of key token ∷ []) v
              (found_last key token rows fresh) (law nonce key.token token encrypted).1)
    ]
  where
    refused : {e : _} → err e ≡ ok rows' → ⊥
    refused p = cc

gone :
    (provider name : String) (rows : List KeyRow)
    → find_key provider name (rows_without name rows) ≡ none
gone provider name [] = refl
gone provider name (r ∷ rows) = elim (Bool-cases (r.name =s name)) [
  | inl e ↦ rw e (gone provider name rows)
  | inr e ↦
      let other : (r.provider =s provider && r.name =s name) ≡ false = ground arith in
      rw (e, other) (gone provider name rows)
]

kept :
    (provider name other : String) (rows : List KeyRow)
    → (name =s other) ≡ false
    → find_key provider other (rows_without name rows) ≡ find_key provider other rows
kept provider name other [] h = refl
kept provider name other (r ∷ rows) h = elim (Bool-cases (r.name =s name)) [
  | inl e ↦
      let apart : (r.name =s other) ≡ false =
        subst (λ n. (n =s other) ≡ false) (sym ((eq_iff r.name name).0 e)) h in
      let skipped : (r.provider =s provider && r.name =s other) ≡ false = ground arith in
      rw (e, skipped) (kept provider name other rows h)
  | inr e ↦ elim (Bool-cases (r.provider =s provider && r.name =s other)) [
    | inl f ↦ rw (e, f) refl
    | inr f ↦ rw (e, f) (kept provider name other rows h)
  ]
]

remaining-ok :
    (name : String) (rows rows' : List KeyRow) (o : Option KeyRow) (w : World)
    → (remaining name rows o w).0 ≡ ok rows'
    → rows_without name rows ≡ rows'
remaining-ok name rows rows' none w h = absurd (cc)
remaining-ok name rows rows' (some r) w h = cc

-- A delete that succeeds removes the keys of this name with all providers, though a name is unique
-- with its provider only, and leaves the keys of other names.
pub delete_key_lem :
    (name : String) (rows rows' : List KeyRow) (w : World)
    → (delete_key name rows (up w)).0 ≡ ok rows'
    → ((provider : String) → find_key provider name rows' ≡ none)
      × ((provider other : String)
          → (name =s other) ≡ false
          → find_key provider other rows' ≡ find_key provider other rows)
unfolding delete_key reach
delete_key_lem name rows rows' w h =
    let left : rows_without name rows ≡ rows' =
      remaining-ok name rows rows' (find_by_name name rows) (up w) h in
    (
      (λ provider. subst (λ rs. find_key provider name rs ≡ none) left (gone provider name rows)),
      λ provider other apart.
          subst (λ rs. find_key provider other rs ≡ find_key provider other rows) left
            (kept provider name other rows apart),
    )
