-- ===== src/Server/Webhooks/Signed.antt =====
-- Deliveries that nobody signed.
use text.Mathlib.Text.{starts_with}
use codeforge.Prelude.{
  ℕ, ◌≡◌, ◌⊎◌, refl, ap, String, true, false, Option, none, some, List, [], ◌∷◌, arith, Bool-cases,
  inl, inr, ◌=s◌,
}
use codeforge.Server.Http.{Response, message}
use codeforge.Server.Auth.{trim_prefix}
use codeforge.Server.Webhooks.{CodeReviewConfig, Site, S}
use codeforge.Server.Webhooks.Receiver.{
  Signing, same_bytes, is_signature, verify_github_signature, github_webhook,
}

equal_bytes : (xs ys : List ℕ) → same_bytes xs ys ≡ true → xs ≡ ys
equal_bytes [] [] h = refl
equal_bytes [] (y ∷ ys) h = absurd (cc)
equal_bytes (x ∷ xs) [] h = absurd (cc)
equal_bytes (x ∷ xs) (y ∷ ys) h = ground (arith, equal_bytes xs ys)

-- A secret is set, and the header is `sha256=` with the code of the body's HMAC under it.
abbrev pub IsSigned : Signing → CodeReviewConfig → String → List ℕ → Type 0
IsSigned signing cfg signature body =
    ((cfg.github_secret =s "") ≡ false)
    × (starts_with signature "sha256=" ≡ true)
    × (signing.from_hex (trim_prefix signature "sha256=")
        ≡ some (signing.hmac cfg.github_secret body))

decoded :
    (expected : List ℕ) (o : Option (List ℕ)) → is_signature expected o ≡ true → o ≡ some expected
decoded expected none h = absurd (cc)
decoded expected (some sig) h = ap some (equal_bytes sig expected h)

verified :
    (signing : Signing) (body : List ℕ) (signature secret : String)
    → verify_github_signature signing body signature secret ≡ true
    → (starts_with signature "sha256=" ≡ true)
      × (signing.from_hex (trim_prefix signature "sha256=") ≡ some (signing.hmac secret body))
unfolding verify_github_signature
verified signing body signature secret h = (
  ground arith,
  decoded (signing.hmac secret body) (signing.from_hex (trim_prefix signature "sha256="))
      (ground arith),
)

-- A body that is not signed with a secret that is set never reaches the handlers of GitHub's
-- events: the answer is 503 or 401, whatever they do, and nothing changes.
pub github_webhook_unsigned :
    (signing : Signing) (cfg : CodeReviewConfig) (pull_request issue_comment : List ℕ → S Response)
    (event signature : String) (body : List ℕ) (s : Site)
    → (IsSigned signing cfg signature body → ⊥)
    → (r : Response) × ((r.status ≡ 503) ⊎ (r.status ≡ 401))
      × (github_webhook signing cfg pull_request issue_comment event signature (some body) s
          ≡ (r, s))
unfolding github_webhook
github_webhook_unsigned signing cfg pull_request issue_comment event signature body s unsigned =
    elim (Bool-cases (cfg.github_secret =s "")) [
      | inl e ↦ (
        record { status = 503; body = message "GitHub webhook secret not configured" },
        inl refl,
        rw e refl,
      )
      | inr e ↦
          elim (Bool-cases (verify_github_signature signing body signature cfg.github_secret)) [
            | inl f ↦
                let (prefixed, matched) = verified signing body signature cfg.github_secret f in
                absurd (unsigned (e, prefixed, matched))
            | inr f ↦ (
              record { status = 401; body = message "invalid signature" },
              inr refl,
              rw (e, f) refl,
            )
          ]
    ]
