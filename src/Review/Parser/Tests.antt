-- ===== src/Review/Parser/Tests.antt =====
-- The parser at concrete outputs.
use codeforge.Prelude.{◌≡◌, refl, false, Option, none, some, [], ◌∷◌, ◌++◌}
use codeforge.Prelude.Int.{pos}
use codeforge.Session.Model.{ReviewResult}
use codeforge.Review.Parser.{
  Texts, Bytes, verdict_key, index_of, walk_back, walk_forward, object, parse_review_output,
  post_process, heuristic_extract,
}
use codeforge.Review.Parser.Objects.{Body, flat, nested, around, entire, object_lem}
use codeforge.Review.Parser.Normal.{IsNormal, parse_review_output-IsNormal}

abbrev odd_review : ReviewResult
odd_review = record {
  verdict = "maybe";
  score = pos 42;
  summary = "";
  issues =
      record { severity = "fatal"; file = "a.go"; line = pos 1; description = ""; suggestion = "" }
      ∷ [];
  auto_fixable = false;
  reviewed_by = "";
  duration = 0;
}

abbrev decode : Bytes → Option ReviewResult
decode [] = none
decode (b ∷ bs) = some odd_review

abbrev plain_texts : Texts
plain_texts = record {
  trim_space = λ s. s;
  markdown_block = λ _. none;
  unmarshal = decode;
  text = λ _. "";
}

parse_review_output-IsNormal_example : IsNormal (parse_review_output plain_texts (123 ∷ 125 ∷ []))
parse_review_output-IsNormal_example = parse_review_output-IsNormal plain_texts (123 ∷ 125 ∷ [])

odd_score : (parse_review_output plain_texts (123 ∷ 125 ∷ [])).score ≡ pos 10
unfolding parse_review_output post_process heuristic_extract
odd_score = refl

-- Between two bytes, `{"verdict":{1}}`.
abbrev inside : Body
inside = nested (58 ∷ []) (flat (49 ∷ [])) (flat [])

found : index_of ((32 ∷ []) ++ around [] inside (33 ∷ [])) verdict_key ≡ some 2
unfolding index_of
found = refl

object_lem_example : object ((32 ∷ []) ++ around [] inside (33 ∷ [])) ≡ some (entire [] inside)
object_lem_example =
    object_lem (32 ∷ []) [] (33 ∷ []) inside tt ((refl, refl, tt), (refl, refl, tt), tt) found

-- With another object before the key, `{{}"verdict"}`, it is that one that is cut out.
inner_object : object (123 ∷ 123 ∷ 125 ∷ (verdict_key ++ (125 ∷ []))) ≡ some (123 ∷ 125 ∷ [])
unfolding object index_of walk_back walk_forward
inner_object = refl
