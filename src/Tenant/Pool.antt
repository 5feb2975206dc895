-- ===== src/Tenant/Pool.antt =====
-- internal/tenant: the pool of keys that the operator lends.
use codeforge.Prelude.{
  ℕ, ◌-◌, ◌+◌, ◌&&◌, String, Option, none, some, List, [], ◌∷◌, ◌++◌, if◌then◌else◌, ◌=s◌, ◌<>◌,
  ltb,
}
use codeforge.Prelude.Int.{ℤ, pos, pos_part, leb_ℤ}
use codeforge.Apperror.{opaque, wrapped}
use codeforge.Session.World.{M, ◌>>=◌, ◌>>◌, pure, fail, reach, lost}
use codeforge.Tenant.{KeyPoolEntry, Tables}

unfoldable pub add_key_pool_entry : KeyPoolEntry → Tables → Tables
add_key_pool_entry e db = record db { key_pool = db.key_pool ++ (e ∷ []) }

abbrev pub keys_without : String → List KeyPoolEntry → List KeyPoolEntry
keys_without id [] = []
keys_without id (e ∷ es) = let rest = keys_without id es in if e.id =s id then rest else e ∷ rest

unfoldable pub delete_key_pool_entry : String → Tables → Tables
delete_key_pool_entry id db = record db { key_pool = keys_without id db.key_pool }

abbrev pub active_keys : String → List KeyPoolEntry → List KeyPoolEntry
active_keys provider [] = []
active_keys provider (e ∷ es) =
    let rest = active_keys provider es in
    if e.provider =s provider && e.active then e ∷ rest else rest

unfoldable pub effective_weight : ℤ → ℕ
effective_weight w = if leb_ℤ w (pos 0) then 1 else pos_part w

abbrev pub total_weight : List KeyPoolEntry → ℕ
total_weight [] = 0
total_weight (e ∷ es) = effective_weight e.weight + total_weight es

-- The walk of GetActiveKeyForProvider with the draw `r`; the last key is for a draw past them all.
unfoldable pub pick : KeyPoolEntry → ℕ → List KeyPoolEntry → KeyPoolEntry
unfolding effective_weight
pick last r [] = last
pick last r (e ∷ es) =
    let w = effective_weight e.weight in let rest = pick e (r - w) es in if ltb r w then e else rest

-- `draw n` is what the random source gives below `n`.
abbrev pub pick_from : (ℕ → ℕ) → String → List KeyPoolEntry → M KeyPoolEntry
pick_from draw provider [] = fail (opaque ("no active key for provider " <> provider))
pick_from draw provider (e ∷ es) = pure (pick e (draw (total_weight (e ∷ es))) (e ∷ es))

unfoldable pub get_active_key_for_provider : (ℕ → ℕ) → Tables → String → M KeyPoolEntry
unfolding reach pick
get_active_key_for_provider draw db provider = do
  reach (wrapped ("getting active keys for provider " <> provider) lost)
  pick_from draw provider (active_keys provider db.key_pool)

abbrev pub opened : Option String → M String
opened none = fail (wrapped "decrypting pool key" (opaque "cipher"))
opened (some key) = pure key

-- ResolveKeyFromPool, with the decryption of internal/crypto.
unfoldable pub resolve_key_from_pool :
    (String → Option String) → (ℕ → ℕ) → Tables → String → M String
resolve_key_from_pool decrypt draw db provider = do
  entry ← get_active_key_for_provider draw db provider
  opened (decrypt entry.encrypted_token)
