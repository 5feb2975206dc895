-- ===== src/Session/Creating.antt =====
-- internal/session/service.go: Create.
use codeforge.Prelude.{String, Option, none, some, List, [], ◌∷◌, if◌then◌else◌, ◌=s◌}
use codeforge.Apperror.{Error, opaque, wrapped}
use codeforge.Session.Model.{Config, Session}
use codeforge.Session.World.{
  Hash, M, Result, ok, err, ◌>>=◌, ◌>>◌, pure, get, modify, lift, reach, lost, hset, enqueue,
  persist_to_sqlite,
}
use codeforge.Session.Sqlite
use codeforge.Session.Service.{
  Cipher, CreateSessionRequest, Draws, session_to_hash, task_type, effective_prompt, new_session,
}

abbrev pub encrypt_error : String → Error
encrypt_error context = wrapped context (opaque "crypto: generating nonce")

-- The encrypted form of a secret, which an empty secret does not get.
unfoldable pub encrypted : Cipher → String → String → String → Result (Option String)
encrypted cipher context nonce secret =
    if secret =s "" then ok none else elim (cipher.encrypt nonce secret) [
      | none ↦ err (encrypt_error context)
      | some c ↦ ok (some c)
    ]

abbrev pub api_key : Option Config → String
api_key none = ""
api_key (some c) = c.ai_api_key

abbrev pub add_to_index : String → List String → List String
add_to_index k [] = k ∷ []
add_to_index k (x ∷ xs) = if x =s k then x ∷ xs else x ∷ add_to_index k xs

abbrev pub overlay : Hash → Option String → Option String → Hash → Hash
overlay fields token key h = record fields {
  encrypted_access_token = token;
  encrypted_ai_api_key = key;
}

-- The pipeline of Create. The id is fresh, so HSET meets no older hash.
unfoldable pub store_new : Session → Option String → Option String → M Session
unfolding reach persist_to_sqlite
store_new t token key = do
  reach (wrapped "creating session in redis" lost)
  w ← get
  modify λ w. enqueue t.id (hset t.id (overlay (session_to_hash t) token key) w)
  modify λ w. record w { index = add_to_index t.id w.index }
  persist_to_sqlite (Sqlite.save w.now t)
  pure t

-- The secrets of a new session, encrypted.
unfoldable pub seal : Cipher → Draws → Session → M Session
unfolding encrypted
seal cipher draws t = do
  token ← lift (encrypted cipher "encrypting access token" draws.token_nonce t.access_token)
  key ← lift (encrypted cipher "encrypting ai api key" draws.key_nonce (api_key t.config))
  store_new t token key

-- Create.
unfoldable pub create : Cipher → CreateSessionRequest → Draws → M Session
create cipher req draws = do
  prompt ← lift (effective_prompt (task_type req.session_type) req.prompt)
  w ← get
  seal cipher draws (new_session req prompt draws.id w.now)
