-- ===== src/Slug/Tests.antt =====
-- Names of concrete prompts.
use codeforge.Prelude.{◌≡◌, refl}
use codeforge.Prelude.Bytes.{codes}
use codeforge.Slug.{generate}
use codeforge.Slug.Shape.{IsName, generate-IsName}

generate-IsName_example : IsName (generate (codes "Fix the ../tests!") (codes "0a1b2c3d-4e5f"))
generate-IsName_example = generate-IsName (codes "Fix the ../tests!") (codes "0a1b2c3d-4e5f") refl

fixed :
    generate (codes " Fix the  tests, please: all of them") (codes "0a1b2c3d-4e5f")
    ≡ codes "fix-the-tests-please-all-0a1b2c3d"
unfolding generate
fixed = refl

nothing_left : generate (codes "!?") (codes "ab") ≡ codes "session-ab"
unfolding generate
nothing_left = refl
