-- ===== src/Session/Operations/Expired.antt =====
-- An Instruct of a session whose hash has expired.
use codeforge.Session.Sqlite
use codeforge.Session.Model.{Session}
use codeforge.Prelude.{◌+◌, ◌≡◌, String, none, some, List}
use codeforge.Session.Status.{awaiting_instruction}
use codeforge.Session.World.{Row, up, World, ok}
use codeforge.Session.Service.{Cipher}
use codeforge.Session.Operations.{instructed, instruct_loaded, instruct, instruct_refusal}
use codeforge.Session.Loading.{get_session}
use codeforge.Session.Operations.Effects.{
  get_session_calm, get_session_row, instruct_loaded-up, partial_session,
}

-- An Instruct that finds its session in SQLite alone, its hash having expired, is accepted, and
-- makes a hash without the session's id, repository and prompt: who loads the session after it,
-- as a worker does, gets them empty.
pub instruct_expired :
    (cipher : Cipher) (k prompt : String) (w : World) (rows : List Row) (t : Session)
    → w.state k ≡ none
    → w.sqlite ≡ some rows
    → Sqlite.find_row k rows ≡ some t
    → instruct_refusal t.status ≡ none
    → let (r, w') = instruct cipher k prompt (up w) in
      (r ≡ ok (instructed prompt t))
      × (u : Session) × ((get_session cipher k w').0 ≡ ok u)
      × (u.status ≡ awaiting_instruction)
      × (u.id ≡ "")
      × (u.repo_url ≡ "")
      × (u.prompt ≡ "")
unfolding instruct
instruct_expired cipher k prompt w rows t e s f allowed =
    let (r, state, _, calm, result) = instruct_loaded-up k prompt t w allowed in
    let w' : World = (instruct_loaded k prompt t (up w)).1 in
    let (status, id, repo, text) =
      partial_session cipher (w'.result k) prompt (t.iteration + 1) w.now in
    rw (get_session_row cipher k w rows t e s f)
      (r, _, get_session_calm cipher k w' _ calm (rw e at state), status, id, repo, text)
