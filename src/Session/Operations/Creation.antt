-- ===== src/Session/Operations/Creation.antt =====
-- What Create stores, read back by Get.
use codeforge.Session.World.Rules.{lift_ok}
use codeforge.Session.Model.{Config, Session, marshal_config}
use codeforge.Prelude.{
  subst, ap, ◌∙◌, sym, ℕ, ◌≡◌, refl, inl, inr, String, false, Option, none, some, List, [], ◌∷◌,
  arith, Option-cases, option_or, eq_refl, eq_iff, Bool-cases, ◌=s◌,
}
use codeforge.Session.World.{
  Row, faults_after, lift, ◌>>=◌, entry_ttl, faults_after, Row, up, World, Result, ok, empty_hash,
}
use codeforge.Session.Service.{
  Cipher, CreateSessionRequest, Draws, hash_to_session, session_to_hash, new_session,
  effective_prompt, task_type, text_of, non_empty, non_empty_metadata, map_config,
}
use codeforge.Session.Loading.{with_token, with_key, decrypted, revealed, get_session, with_result}
use codeforge.Session.Creating.{create, seal, store_new, encrypted, api_key, overlay}
use codeforge.Session.Operations.Effects.{get_session_calm}

text_of-non_empty : (s : String) → text_of (non_empty s) ≡ s
text_of-non_empty s = elim (Bool-cases (s =s "")) [
  | inl e ↦ rw e (sym ((eq_iff s "").0 e))
  | inr e ↦ rw e refl
]

non_empty_metadata-or : (m : List (String × String)) → option_or (non_empty_metadata m) [] ≡ m
non_empty_metadata-or [] = refl
non_empty_metadata-or (x ∷ xs) = refl

-- The session without its secrets.
abbrev plain : Session → Session
plain t = record t { access_token = ""; config = map_config t.config }

round_trip :
    (req : CreateSessionRequest) (prompt id : String) (now : ℕ)
    → hash_to_session (session_to_hash (new_session req prompt id now))
      ≡ plain (new_session req prompt id now)
unfolding hash_to_session session_to_hash
round_trip req prompt id now =
    rw
      (
        text_of-non_empty req.provider_key,
        text_of-non_empty req.callback_url,
        text_of-non_empty req.workflow_run_id,
        text_of-non_empty req.tenant_id,
        non_empty_metadata-or req.metadata,
      )
      refl

-- What a cipher does with a secret: it takes back what it made, and makes the empty text of the empty
-- text alone.
abbrev pub IsInvertible : Cipher → Type 0
IsInvertible cipher =
    (nonce s c : String)
    → cipher.encrypt nonce s ≡ some c
    → ((c =s "") ≡ (s =s "")) × (cipher.decrypt c ≡ some s)

decrypted-encrypted :
    (cipher : Cipher) (context nonce s : String) (o : Option String)
    → IsInvertible cipher
    → encrypted cipher context nonce s ≡ ok o
    → decrypted cipher o ≡ non_empty s
unfolding encrypted decrypted
decrypted-encrypted cipher context nonce s o law h = elim (Bool-cases (s =s "")) [
  | inl e ↦ ground arith
  | inr e ↦ elim (Option-cases (cipher.encrypt nonce s)) [
    | inl n ↦ absurd (ground arith)
    | inr (c, m) ↦
        let (filled, back) = law nonce s c m in
        let kept : (c =s "") ≡ false = filled ∙ e in ground arith
  ]
]

store_new-up :
    (t : Session) (token key : Option String) (w : World)
    → let (r, w') = store_new t token key (up w) in
      (r ≡ ok t)
      × (w'.faults ≡ [])
      × (w'.result ≡ w.result)
      × (w'.state t.id
          ≡ some (record {
            hash = overlay (session_to_hash t) token key empty_hash;
            ttl = entry_ttl (w.state t.id);
          }))
unfolding store_new
store_new-up t token key w = rw (eq_refl t.id) (refl, none_left w.sqlite, refl, refl)
  where
    none_left : (o : Option (List Row)) → faults_after [] o ≡ []
    none_left none = refl
    none_left (some _) = refl

with_token-plain :
    (t : Session)
    → with_token (non_empty t.access_token) (plain t) ≡ record t { config = map_config t.config }
with_token-plain t = elim (Bool-cases (t.access_token =s "")) [
  | inl e ↦ rw e (rw ((eq_iff t.access_token "").0 e) refl)
  | inr e ↦ rw e refl
]

with_key-config :
    (t : Session) (c : Option Config)
    → t.config ≡ c
    → with_key (non_empty (api_key c)) (record t { config = map_config c })
      ≡ record t { config = c }
unfolding marshal_config
with_key-config t none h = refl
with_key-config t (some c) h = elim (Bool-cases (c.ai_api_key =s "")) [
  | inl e ↦ rw e (λ i. record t {
    config = some (record c { ai_api_key = sym ((eq_iff c.ai_api_key "").0 e) i });
  })
  | inr e ↦ rw e refl
]

revealed-overlay :
    (cipher : Cipher) (req : CreateSessionRequest) (prompt id : String) (now : ℕ)
    (token key : Option String)
    → decrypted cipher token ≡ non_empty req.access_token
    → decrypted cipher key ≡ non_empty (api_key req.config)
    → let t = new_session req prompt id now in
      revealed cipher (overlay (session_to_hash t) token key empty_hash) ≡ t
unfolding revealed hash_to_session
revealed-overlay cipher req prompt id now token key a b =
    let t = new_session req prompt id now in
    rw (a, b)
      (ap
          (λ u.
            with_key (non_empty (api_key req.config)) (with_token (non_empty req.access_token) u))
          (round_trip req prompt id now)
        ∙ ap (with_key (non_empty (api_key req.config))) (with_token-plain t)
        ∙ with_key-config t req.config refl)

-- A pair of a result and a World in which Get finds that result.
abbrev Readable : Cipher → String → Session → Result Session × World → Type 0
Readable cipher k t (r, w) = r ≡ ok t → (get_session cipher k w).0 ≡ ok t

stored-Readable :
    (cipher : Cipher) (req : CreateSessionRequest) (prompt id : String) (w : World) (t : Session)
    (token key : Option String)
    → decrypted cipher token ≡ non_empty req.access_token
    → decrypted cipher key ≡ non_empty (api_key req.config)
    → w.result id ≡ none
    → Readable cipher id t (store_new (new_session req prompt id w.now) token key (up w))
stored-Readable cipher req prompt id w t token key a b fresh h =
    let s = new_session req prompt id w.now in
    let (r, calm, result, state) = store_new-up s token key w in
    let w' : World = (store_new s token key (up w)).1 in
    get_session_calm cipher id w' _ calm state
    ∙ ap
        (λ o. ok (
          with_result (ok tt) o
            (revealed cipher (overlay (session_to_hash s) token key empty_hash))))
        (ap (λ f. f id) result ∙ fresh)
    ∙ ap ok (revealed-overlay cipher req prompt id w.now token key a b)
    ∙ sym r
    ∙ h

-- A Create that returns a session went through the encryption of its secrets.
pub create_stores :
    (cipher : Cipher) (req : CreateSessionRequest) (draws : Draws) (w : World) (t : Session)
    → (create cipher req draws w).0 ≡ ok t
    → (prompt : String) × (token : Option String) × (key : Option String) × (effective_prompt
          (task_type req.session_type)
          req.prompt
        ≡ ok prompt)
      × (encrypted cipher "encrypting access token" draws.token_nonce req.access_token ≡ ok token)
      × (encrypted cipher "encrypting ai api key" draws.key_nonce (api_key req.config) ≡ ok key)
      × (create cipher req draws w ≡ store_new (new_session req prompt draws.id w.now) token key w)
unfolding create seal
create_stores cipher req draws w t h =
    let (prompt, p, e₁) =
      lift_ok (effective_prompt (task_type req.session_type) req.prompt)
        (λ prompt w. seal cipher draws (new_session req prompt draws.id w.now) w) w t h in
    let s = new_session req prompt draws.id w.now in
    let (token, a, e₂) =
      lift_ok (encrypted cipher "encrypting access token" draws.token_nonce s.access_token)
        (λ token.
          lift (encrypted cipher "encrypting ai api key" draws.key_nonce (api_key s.config))
          >>= λ key. store_new s token key)
        w t (sym (ap (λ p. p.0) e₁) ∙ h) in
    let (key, b, e₃) =
      lift_ok (encrypted cipher "encrypting ai api key" draws.key_nonce (api_key s.config))
        (λ key. store_new s token key) w t (sym (ap (λ p. p.0) (e₁ ∙ e₂)) ∙ h) in
    (prompt, token, key, p, a, b, e₁ ∙ e₂ ∙ e₃)

-- Where Redis and SQLite answer, Get gives the session that Create returned, secrets included, if
-- the cipher takes back what it made, and makes the empty text of the empty text alone, and if no
-- result is stored under the new id.
pub get_session-create :
    (cipher : Cipher) (req : CreateSessionRequest) (draws : Draws) (w : World) (t : Session)
    → IsInvertible cipher
    → w.result draws.id ≡ none
    → (create cipher req draws (up w)).0 ≡ ok t
    → (get_session cipher draws.id (create cipher req draws (up w)).1).0 ≡ ok t
get_session-create cipher req draws w t law fresh h =
    let (prompt, token, key, _, a, b, e) = create_stores cipher req draws (up w) t h in
    subst (Readable cipher draws.id t) (sym e)
      (stored-Readable cipher req prompt draws.id w t token key
        (decrypted-encrypted cipher _ draws.token_nonce req.access_token token law a)
        (decrypted-encrypted cipher _ draws.key_nonce (api_key req.config) key law b) fresh)
      h
