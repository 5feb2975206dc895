-- ===== src/Prelude/Maps.antt =====
-- Maps with text keys as functions.
use Prim.Native.String.{String}
use mathlib.Core.Path.{◌≡◌}
use text.Mathlib.TextPositions.{eq_refl}
use codeforge.Prelude.Tests.{◌=s◌, if◌then◌else◌}

module _ {ℓ} {A : Type ℓ} where
  abbrev pub update : (String → A) → String → A → String → A
  update f k v j = if k =s j then v else f j

  pub update_self : (f : String → A) (k : String) (v : A) → update f k v k ≡ v
  update_self f k v = rw (eq_refl k)
