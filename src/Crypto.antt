-- ===== src/Crypto.antt =====
-- internal/crypto/service.go: secrets as they are stored.
--
-- AES-GCM and base64 of the Go library are a parameter: `decode` takes a stored text back to its
-- nonce and the sealed rest, and fails where the text is not base64 or too short for a nonce. A draw
-- that is no nonce stands for a random source that fails.
use codeforge.Prelude.{
  ◌≡◌, refl, sym, ap, ◌∙◌, String, Bool, true, false, Option, none, some, Bool-cases, inl, inr,
  if◌then◌else◌, ◌=s◌, eq_iff,
}
use codeforge.Session.Service.{Cipher}
use codeforge.Session.Operations.Creation.{IsInvertible}

pub record Aead : Type 0 where
  pub is_nonce : String → Bool
  pub seal : String → String → String
  pub unseal : String → String → Option String
  pub encode : String → String → String
  pub decode : String → Option (String × String)

-- Encrypt.
abbrev pub encrypt : Aead → String → String → Option String
encrypt lib nonce s =
    if s =s ""
    then some ""
    else if lib.is_nonce nonce
    then some (lib.encode nonce (lib.seal nonce s))
    else none

abbrev pub opened_parts : Aead → Option (String × String) → Option String
opened_parts lib none = none
opened_parts lib (some (nonce, sealed)) = lib.unseal nonce sealed

-- Decrypt.
abbrev pub decrypt : Aead → String → Option String
decrypt lib c = if c =s "" then some "" else opened_parts lib (lib.decode c)

abbrev pub service : Aead → Cipher
service lib = record { encrypt = encrypt lib; decrypt = decrypt lib }

-- For a text that is not empty and a nonce: the encoding is not empty and is decoded, and what was
-- sealed is opened.
abbrev pub IsAuthentic : Aead → Type 0
IsAuthentic lib =
    (nonce s : String)
    → lib.is_nonce nonce ≡ true
    → (s =s "") ≡ false
    → let sealed = lib.seal nonce s in
      ((lib.encode nonce sealed =s "") ≡ false)
      × (lib.decode (lib.encode nonce sealed) ≡ some (nonce, sealed))
      × (lib.unseal nonce sealed ≡ some s)

-- With such a library the service takes back what it has made, the empty text included.
pub service-IsInvertible : (lib : Aead) → IsAuthentic lib → IsInvertible (service lib)
service-IsInvertible lib law nonce s c h = elim (Bool-cases (s =s "")) [
  | inl e ↦ nothing e (rw e at h)
  | inr e ↦ elim (Bool-cases (lib.is_nonce nonce)) [
    | inl n ↦ something e n (rw n at (rw e at h))
    | inr n ↦ absurd (refused (rw n at (rw e at h)))
  ]
]
  where
    refused : ◌≡◌ {A = Option String} none (some c) → ⊥
    refused p = cc

    nothing :
        (s =s "") ≡ true → some "" ≡ some c → ((c =s "") ≡ (s =s "")) × (decrypt lib c ≡ some s)
    nothing e p =
        let at : "" ≡ c = cc in
        let same : s ≡ c = (eq_iff s "").0 e ∙ at in
        (ap (λ x. x =s "") (sym same), rw (← at) (ap some (sym ((eq_iff s "").0 e))))

    something :
        (s =s "") ≡ false
        → lib.is_nonce nonce ≡ true
        → some (lib.encode nonce (lib.seal nonce s)) ≡ some c
        → ((c =s "") ≡ (s =s "")) × (decrypt lib c ≡ some s)
    something e n p =
        let (filled, decoded, opens) = law nonce s n e in
        let at : lib.encode nonce (lib.seal nonce s) ≡ c = cc in
        rw (← at, filled, decoded, opens) (sym e, refl)
