-- ===== src/Slug/Shape.antt =====
-- The shape of the names.
use codeforge.Prelude.{
  ℕ, zero, suc, ◌-◌, ◌≤◌, ◌≡◌, refl, Bool, true, false, ◌&&◌, ◌||◌, List, [], ◌∷◌, ◌++◌, arith,
  Bool-cases, inl, inr, ◌==◌, ltb, length, take, length-append,
}
use codeforge.Prelude.Bytes.{Bytes, codes, lower}
use codeforge.Slug.{
  hyphen, ascii, is_alnum, hyphenated, trim_left, trim_right, kept_before, split, on_first, join,
  slugify, session_name, fitted, named, generate, short_id_len, max_words,
}

-- A lower-case letter, a digit or a hyphen.
abbrev pub is_name_byte : ℕ → Bool
is_name_byte c = is_alnum c || c == hyphen

abbrev pub are_name_bytes : Bytes → Bool
are_name_bytes [] = true
are_name_bytes (c ∷ cs) = is_name_byte c && are_name_bytes cs

abbrev are_all_names : List Bytes → Bool
are_all_names [] = true
are_all_names (w ∷ ws) = are_name_bytes w && are_all_names ws

hyphenated-names : (inside_run : Bool) (s : Bytes) → are_name_bytes (hyphenated inside_run s) ≡ true
hyphenated-names inside_run [] = refl
hyphenated-names inside_run (c ∷ cs) =
    ground (arith, hyphenated-names true cs, hyphenated-names false cs)

trim_left-names : (s : Bytes) → are_name_bytes s ≡ true → are_name_bytes (trim_left s) ≡ true
trim_left-names [] h = refl
trim_left-names (c ∷ cs) h = ground (arith, trim_left-names cs)

kept_before-names :
    (c : ℕ) (s : Bytes)
    → is_name_byte c ≡ true
    → are_name_bytes s ≡ true
    → are_name_bytes (kept_before c s) ≡ true
kept_before-names c [] p h = ground arith
kept_before-names c (d ∷ ds) p h = ground arith

trim_right-names : (s : Bytes) → are_name_bytes s ≡ true → are_name_bytes (trim_right s) ≡ true
trim_right-names [] h = refl
trim_right-names (c ∷ cs) h =
    kept_before-names c (trim_right cs) (ground arith) (trim_right-names cs (ground arith))

on_first-names :
    (c : ℕ) (ws : List Bytes)
    → is_name_byte c ≡ true
    → are_all_names ws ≡ true
    → are_all_names (on_first c ws) ≡ true
on_first-names c [] p h = ground arith
on_first-names c (w ∷ ws) p h = ground arith

split-names : (s : Bytes) → are_name_bytes s ≡ true → are_all_names (split s) ≡ true
split-names [] h = refl
split-names (c ∷ cs) h = ground (arith, split-names cs, on_first-names c (split cs))

take-names : (n : ℕ) (ws : List Bytes) → are_all_names ws ≡ true → are_all_names (take n ws) ≡ true
take-names zero ws h = refl
take-names (suc n) [] h = refl
take-names (suc n) (w ∷ ws) h = ground (arith, take-names n ws)

append-names :
    (s t : Bytes)
    → are_name_bytes s ≡ true
    → are_name_bytes t ≡ true
    → are_name_bytes (s ++ t) ≡ true
append-names [] t h k = k
append-names (c ∷ cs) t h k = ground (arith, append-names cs t)

join-names : (ws : List Bytes) → are_all_names ws ≡ true → are_name_bytes (join ws) ≡ true
join-names [] h = refl
join-names (w ∷ []) h = ground arith
join-names (w ∷ v ∷ ws) h =
    append-names w (hyphen ∷ join (v ∷ ws)) (ground arith) (join-names (v ∷ ws) (ground arith))

slugify-names : (decomposed : List ℕ) → are_name_bytes (slugify decomposed) ≡ true
unfolding slugify
slugify-names decomposed =
    let dashed = hyphenated false (lower (ascii decomposed)) in
    let trimmed = trim_right (trim_left dashed) in
    join-names (take max_words (split trimmed)) (
      take-names max_words (split trimmed) (
        split-names trimmed (
          trim_right-names (trim_left dashed)
            (trim_left-names dashed (hyphenated-names false (lower (ascii decomposed)))))))

length-take_le : (n : ℕ) (s : Bytes) → length (take n s) ≤ n
length-take_le zero s = omega arith
length-take_le (suc n) [] = omega arith
length-take_le (suc n) (c ∷ cs) = omega (arith, length-take_le n cs)

length-trim_right : (s : Bytes) → length (trim_right s) ≤ length s
length-trim_right [] = omega arith
length-trim_right (c ∷ cs) = shorter (trim_right cs) (length-trim_right cs)
  where
    shorter : (t : Bytes) → length t ≤ length cs → length (kept_before c t) ≤ suc (length cs)
    shorter [] h = ground arith
    shorter (d ∷ ds) h = omega arith

take-name_bytes : (n : ℕ) (s : Bytes) → are_name_bytes s ≡ true → are_name_bytes (take n s) ≡ true
take-name_bytes zero s h = refl
take-name_bytes (suc n) [] h = refl
take-name_bytes (suc n) (c ∷ cs) h = ground (arith, take-name_bytes n cs)

length-fitted : (room : ℕ) (s : Bytes) → length (fitted room s) ≤ room
length-fitted room s = elim (Bool-cases (ltb room (length s))) [
  | inl e ↦ rw e (omega (arith, length-take_le room s, length-trim_right (take room s)))
  | inr e ↦ rw e (ground arith)
]

fitted-names :
    (room : ℕ) (s : Bytes) → are_name_bytes s ≡ true → are_name_bytes (fitted room s) ≡ true
fitted-names room s h = elim (Bool-cases (ltb room (length s))) [
  | inl e ↦ rw e (trim_right-names (take room s) (take-name_bytes room s h))
  | inr e ↦ rw e h
]

-- What a name is: at most 50 bytes of lower-case letters, digits and hyphens.
abbrev pub IsName : Bytes → Type 0
IsName s = (length s ≤ 50) × (are_name_bytes s ≡ true)

session_name-IsName :
    (short : Bytes) → length short ≤ 8 → are_name_bytes short ≡ true → IsName (session_name short)
session_name-IsName short bound h = (
  omega (arith, length-append (codes "session-") short),
  append-names (codes "session-") short refl h,
)

named-IsName :
    (short s : Bytes)
    → length short ≤ 8
    → are_name_bytes short ≡ true
    → are_name_bytes s ≡ true
    → IsName (named short s)
named-IsName short [] bound h k = session_name-IsName short bound h
named-IsName short (c ∷ cs) bound h k = elim (Bool-cases (ltb (50 - suc (length short)) 1)) [
  | inl e ↦ rw e (session_name-IsName short bound h)
  | inr e ↦
      let room = 50 - suc (length short) in
      rw e (
        omega (
          arith,
          length-append (fitted room (c ∷ cs)) (hyphen ∷ short),
          length-fitted room (c ∷ cs),
        ),
        append-names (fitted room (c ∷ cs)) (hyphen ∷ short) (fitted-names room (c ∷ cs) k)
            (ground arith),
      )
]

-- For every prompt, whatever its characters, and every id of lower-case letters, digits and hyphens
-- the generated name has at most 50 bytes, all of them lower-case letters, digits and hyphens: it is
-- one segment of a path.
pub generate-IsName :
    (decomposed : List ℕ) (id : Bytes) → are_name_bytes id ≡ true → IsName (generate decomposed id)
unfolding generate
generate-IsName decomposed id h =
    named-IsName (take short_id_len id) (slugify decomposed) (length-take_le short_id_len id)
      (take-name_bytes short_id_len id h) (slugify-names decomposed)
