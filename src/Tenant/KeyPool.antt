-- ===== src/Tenant/KeyPool.antt =====
-- The weighted pick from the pool.
use codeforge.Prelude.{ℕ, ◌+◌, ◌<◌, ◌≡◌, List, [], ◌∷◌, ◌++◌, arith}
use codeforge.Tenant.{KeyPoolEntry}
use codeforge.Tenant.Pool.{effective_weight, total_weight, pick}

-- The draws from the weights before an entry on, as many as its weight, pick this entry: it is
-- picked by exactly its share of the draws.
pub pick_weighted :
    (last : KeyPoolEntry) (before : List KeyPoolEntry) (e : KeyPoolEntry)
    (after : List KeyPoolEntry) (j : ℕ)
    → j < effective_weight e.weight
    → pick last (total_weight before + j) (before ++ (e ∷ after)) ≡ e
unfolding pick
pick_weighted last [] e after j h = ground arith
pick_weighted last (x ∷ before) e after j h = ground (arith, pick_weighted x before e after j)
