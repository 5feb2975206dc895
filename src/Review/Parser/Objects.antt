-- ===== src/Review/Parser/Objects.antt =====
-- The object that the heuristic finds.
use mathlib.Core.List.{append_assoc}
use codeforge.Prelude.{
  ℕ, zero, suc, ◌+◌, ◌-◌, ◌<◌, ◌≤◌, ◌≡◌, refl, sym, ap, ◌∙◌, false, some, [], ◌∷◌, ◌++◌, ◌==◌,
  length, take, drop, arith, if◌then◌else◌, length-append,
}
use codeforge.Review.Parser.{
  Bytes, opening, closing, verdict_key, byte_at, index_of, walk_back, walk_forward, object,
}

-- A text with its braces matched: `before`, then `{ inside } after` if there is one.
pub data Body : Type 0 where
  flat : Bytes → Body
  nested : Bytes → Body → Body → Body

abbrev pub braced : Bytes → Bytes → Bytes
braced inside rest = opening ∷ (inside ++ (closing ∷ rest))

abbrev pub flatten : Body → Bytes
flatten (flat t) = t
flatten (nested t inside after) = t ++ braced (flatten inside) (flatten after)

abbrev pub HasNoBrace : Bytes → Type 0
HasNoBrace [] = Unit {0}
HasNoBrace (b ∷ bs) = ((b == opening) ≡ false) × ((b == closing) ≡ false) × HasNoBrace bs

-- The braces of a body are those of its nesting.
abbrev pub IsMatched : Body → Type 0
IsMatched (flat t) = HasNoBrace t
IsMatched (nested t inside after) = HasNoBrace t × IsMatched inside × IsMatched after

drop-append : (p xs : Bytes) → drop (length p) (p ++ xs) ≡ xs
drop-append [] xs = refl
drop-append (b ∷ p) xs = drop-append p xs

take-append : (p xs : Bytes) → take (length p) (p ++ xs) ≡ p
take-append [] xs = refl
take-append (b ∷ p) xs = ap (λ ys. b ∷ ys) (take-append p xs)

byte_at-append : (p xs : Bytes) (k : ℕ) → byte_at (p ++ xs) (length p + k) ≡ byte_at xs k
byte_at-append [] xs k = rw (zero_add k) refl
  where
    zero_add : (k : ℕ) → 0 + k ≡ k
    zero_add k = omega arith
byte_at-append (b ∷ p) xs k = rw (shift (length p) k) (byte_at-append p xs k)
  where
    shift : (n k : ℕ) → suc n + k ≡ suc (n + k)
    shift n k = omega arith

-- No byte of a text without braces opens an object.
not_opening :
    (a xs : Bytes) (k : ℕ) → HasNoBrace a → k < length a → (byte_at (a ++ xs) k == opening) ≡ false
not_opening [] xs k clean h = ground arith
not_opening (b ∷ a) xs zero (first, other, clean) h = first
not_opening (b ∷ a) xs (suc k) (first, other, clean) h = not_opening a xs k clean (ground arith)

walk_back-suc :
    (raw : Bytes) (i : ℕ)
    → walk_back raw (suc i) ≡ (if byte_at raw i == opening then some i else walk_back raw i)
unfolding walk_back
walk_back-suc raw i = refl

-- Back over a text without braces to the brace before it.
walk_back-text :
    (p a xs : Bytes) (k : ℕ)
    → HasNoBrace a
    → k ≤ length a
    → walk_back (p ++ (opening ∷ (a ++ xs))) (suc (length p + k)) ≡ some (length p)
walk_back-text p a xs zero clean h =
    walk_back-suc raw (length p + 0)
    ∙ ap (λ c. if c == opening then some (length p + 0) else walk_back raw (length p + 0))
        (byte_at-append p (opening ∷ (a ++ xs)) 0)
    ∙ ap some (zero_right (length p))
  where
    raw : Bytes
    raw = p ++ (opening ∷ (a ++ xs))

    zero_right : (n : ℕ) → n + 0 ≡ n
    zero_right n = omega arith
walk_back-text p a xs (suc k) clean h =
    walk_back-suc raw (length p + suc k)
    ∙ ap (λ c. if c == opening then some (length p + suc k) else walk_back raw (length p + suc k))
        (byte_at-append p (opening ∷ (a ++ xs)) (suc k))
    ∙ ap (λ c. if c then some (length p + suc k) else walk_back raw (length p + suc k))
        (not_opening a xs k clean (ground arith))
    ∙ ap (walk_back raw) (shift (length p) k)
    ∙ walk_back-text p a xs k clean (ground arith)
  where
    raw : Bytes
    raw = p ++ (opening ∷ (a ++ xs))

    shift : (n k : ℕ) → n + suc k ≡ suc (n + k)
    shift n k = omega arith

-- Forwards over a text without braces.
walk_forward-text :
    (d n : ℕ) (t xs : Bytes)
    → HasNoBrace t
    → walk_forward d n (t ++ xs) ≡ walk_forward d (n + length t) xs
unfolding walk_forward
walk_forward-text d n [] xs clean = ap (λ m. walk_forward d m xs) (omega arith)
walk_forward-text d n (b ∷ t) xs (no_opening, no_closing, clean) =
    rw (no_opening, no_closing)
      (walk_forward-text d (n + 1) t xs clean ∙ ap (λ m. walk_forward d m xs) (omega arith))

walk_forward-opening :
    (d n : ℕ) (xs : Bytes) → walk_forward d n (opening ∷ xs) ≡ walk_forward (suc d) (n + 1) xs
unfolding walk_forward
walk_forward-opening d n xs = ap (λ e. walk_forward e (n + 1) xs) (omega arith)

walk_forward-closing :
    (d n : ℕ) (xs : Bytes)
    → walk_forward (suc (suc d)) n (closing ∷ xs) ≡ walk_forward (suc d) (n + 1) xs
unfolding walk_forward
walk_forward-closing d n xs = rw (less, positive) refl
  where
    positive : (suc d == 0) ≡ false
    positive = ground arith

    less : suc (suc d) - 1 ≡ suc d
    less = omega arith

regrouped : (t i a xs : Bytes) → (t ++ braced i a) ++ xs ≡ t ++ braced i (a ++ xs)
regrouped t i a xs =
    append_assoc t (braced i a) xs
    ∙ ap (λ ys. t ++ (opening ∷ ys)) (append_assoc i (closing ∷ a) xs)

length-nested :
    (n : ℕ) (t i a : Bytes)
    → n + length t + 1 + length i + 1 + length a ≡ n + length (t ++ braced i a)
length-nested n t i a = omega (arith, length-append t (braced i a), length-append i (closing ∷ a))

-- Forwards over a body, within an object.
walk_forward-body :
    (d n : ℕ) (b : Body) (xs : Bytes)
    → IsMatched b
    → walk_forward (suc d) n (flatten b ++ xs) ≡ walk_forward (suc d) (n + length (flatten b)) xs
walk_forward-body d n (flat t) xs matched = walk_forward-text (suc d) n t xs matched
walk_forward-body d n (nested t inside after) xs (clean, matched, matched') =
    ap (walk_forward (suc d) n) (regrouped t i a xs)
    ∙ walk_forward-text (suc d) n t (braced i (a ++ xs)) clean
    ∙ walk_forward-opening (suc d) (n + length t) (i ++ (closing ∷ (a ++ xs)))
    ∙ walk_forward-body (suc d) (n + length t + 1) inside (closing ∷ (a ++ xs)) matched
    ∙ walk_forward-closing d (n + length t + 1 + length i) (a ++ xs)
    ∙ walk_forward-body d (n + length t + 1 + length i + 1) after xs matched'
    ∙ ap (λ m. walk_forward (suc d) m xs) (length-nested n t i a)
  where
    i : Bytes
    i = flatten inside

    a : Bytes
    a = flatten after

no_brace_in_key : HasNoBrace verdict_key
no_brace_in_key = (
  refl,
  refl,
  (
    refl,
    refl,
    (
      refl,
      refl,
      (refl, refl, (refl, refl, (refl, refl, (refl, refl, (refl, refl, (refl, refl, tt)))))),
    ),
  ),
)

walk_forward-end : (n : ℕ) (xs : Bytes) → walk_forward 1 n (closing ∷ xs) ≡ some (n + 1)
unfolding walk_forward
walk_forward-end n xs = refl

-- A whole object: the text before the key, the key, and a body.
abbrev pub entire : Bytes → Body → Bytes
entire a b = opening ∷ (a ++ (verdict_key ++ (flatten b ++ (closing ∷ []))))

abbrev pub around : Bytes → Body → Bytes → Bytes
around a b q = opening ∷ (a ++ (verdict_key ++ (flatten b ++ (closing ∷ q))))

entire-append : (a : Bytes) (b : Body) (q : Bytes) → entire a b ++ q ≡ around a b q
entire-append a b q =
    ap (λ ys. opening ∷ ys)
      (append_assoc a (verdict_key ++ (flatten b ++ (closing ∷ []))) q
        ∙ ap (λ ys. a ++ (verdict_key ++ ys)) (append_assoc (flatten b) (closing ∷ []) q))

length-entire :
    (a : Bytes) (b : Body) → 1 + length a + 9 + length (flatten b) + 1 ≡ length (entire a b)
length-entire a b = omega (
  arith,
  length-append a (verdict_key ++ (flatten b ++ (closing ∷ []))),
  length-append (flatten b) (closing ∷ []),
)

walk_forward-entire :
    (a : Bytes) (b : Body) (q : Bytes)
    → HasNoBrace a
    → IsMatched b
    → walk_forward 0 0 (around a b q) ≡ some (length (entire a b))
walk_forward-entire a b q clean matched =
    walk_forward-opening 0 0 (a ++ (verdict_key ++ (flatten b ++ (closing ∷ q))))
    ∙ walk_forward-text 1 1 a (verdict_key ++ (flatten b ++ (closing ∷ q))) clean
    ∙ walk_forward-text 1 (1 + length a) verdict_key (flatten b ++ (closing ∷ q)) no_brace_in_key
    ∙ walk_forward-body 0 (1 + length a + 9) b (closing ∷ q) matched
    ∙ walk_forward-end (1 + length a + 9 + length (flatten b)) q
    ∙ ap some (length-entire a b)

-- In a text whose first `"verdict"` stands in an object of matched braces, with no brace between
-- the object's opening and the key, the heuristic cuts out exactly this object, whatever stands
-- before and after it.
pub object_lem :
    (p a q : Bytes) (b : Body)
    → HasNoBrace a
    → IsMatched b
    → index_of (p ++ around a b q) verdict_key ≡ some (suc (length p + length a))
    → object (p ++ around a b q) ≡ some (entire a b)
unfolding object
object_lem p a q b clean matched found =
    rw
      (
        found,
        walk_back-text p a (verdict_key ++ (flatten b ++ (closing ∷ q))) (length a) clean
            (omega arith),
        drop-append p (around a b q),
        walk_forward-entire a b q clean matched,
      )
      (ap some
        (ap (take (length (entire a b))) (sym (entire-append a b q)) ∙ take-append (entire a b) q))
