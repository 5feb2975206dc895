-- ===== src/Session/Listing/Tests.antt =====
-- Lists at concrete rows.
use codeforge.Session.Rfc3339.{rfc_lt}
use codeforge.Prelude.{ℕ, ◌≡◌, ◌≤◌, ◌-◌, refl, String, List, [], ◌∷◌, length}
use codeforge.Prelude.Int.{pos}
use codeforge.Session.World.{Row, Result}
use codeforge.Session.Service.{new_session}
use codeforge.Session.Samples.{request}
use codeforge.Session.Listing.{
  list_ids, ListOptions, list_rows, page_limit, row_summary, list_redis,
}
use codeforge.Session.Listing.Pages.{All, IsListed, min, list_rows_lem}

abbrev row : String → ℕ → Row
row id at = record { session = new_session request "fix the tests" id at; updated_at = at }

abbrev foreign : Row
foreign = record {
  session = record (new_session request "fix the tests" "z" 9) { tenant_id = "u" };
  updated_at = 9;
}

abbrev rows : List Row
rows = row "a" 1000000000 ∷ foreign ∷ row "b" 3000000000 ∷ []

abbrev of_tenant : ListOptions
of_tenant = record { status = ""; tenant_id = "t"; limit = pos 0; offset = pos 0 }

list_rows_lem_example :
    let (shown, total) = list_rows of_tenant rows in
    All (IsListed of_tenant rows) shown
    × (length shown ≡ min (page_limit (pos 0)) (total - 0))
    × (1 ≤ page_limit (pos 0))
    × (page_limit (pos 0) ≤ 200)
list_rows_lem_example = list_rows_lem of_tenant rows

-- The newest first, and no row of another tenant.
newest_first :
    list_rows of_tenant rows
    ≡ (row_summary (row "b" 3000000000) ∷ row_summary (row "a" 1000000000) ∷ [], 2)
unfolding list_rows rfc_lt
newest_first = refl

-- Without SQLite the tenant that is asked for does not matter.
tenant_ignored :
    (opts : ListOptions) (tenant : String) (scanned : Result (List String))
    → list_redis (record opts { tenant_id = tenant }) scanned ≡ list_redis opts scanned
unfolding list_redis list_ids
tenant_ignored opts tenant scanned = refl
