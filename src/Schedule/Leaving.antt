-- ===== src/Schedule/Leaving.antt =====
-- What holds of the table that a round of the scheduler leaves, if every record of a run keeps it.
use codeforge.Prelude.{
  In, ℕ, ◌≡◌, refl, String, Bool, true, false, Option, none, some, List, [], ◌∷◌, Bool-cases, inl,
  inr, if◌then◌else◌,
}
use codeforge.Apperror.{Error, wrapped}
use codeforge.Session.Model.{Session}
use codeforge.Session.World.{
  World, M, Result, ok, err, ◌>>=◌, bind_result, context_result, pure, next_fault, answer, reach,
  lost,
}
use codeforge.Session.Service.{Cipher, CreateSessionRequest, Draws}
use codeforge.Session.Creating.{create}
use codeforge.Session.Listing.{sort_by}
use codeforge.Session.Listing.Pages.{All, All-sort_by}
use codeforge.Schedule.{
  Schedule, Library, earlier, enabled_ones, list_enabled, rows_with, marked_row, unless_failed,
  mark_run, with_schedule, decoded, fire, is_due, table_after, fired, turn, run_listed, run_answer,
  run_due,
}

-- A round never fails; `I` holds of the table that it leaves.
abbrev pub Leaves : (List Schedule → Type 0) → Result (List Schedule) × World → Type 0
Leaves I (ok table, w) = I table
Leaves I (err e, w) = ⊥

enabled_ones-All :
    (P : Schedule → Type 0) (ss : List Schedule)
    → ((s : Schedule) → In s ss → s.enabled ≡ true → P s)
    → All P (enabled_ones ss)
enabled_ones-All P [] h = tt
enabled_ones-All P (s ∷ ss) h =
    both s.enabled (h s (inl refl)) (enabled_ones-All P ss λ t i. h t (inr i))
  where
    both :
        (b : Bool)
        → (b ≡ true → P s)
        → All P (enabled_ones ss)
        → All P (if b then s ∷ enabled_ones ss else enabled_ones ss)
    both true p rest = (p refl, rest)
    both false p rest = rest

module _ (lib : Library) (cipher : Cipher) (draws : String → Draws) (now : ℕ)
    (I : List Schedule → Type 0) (P : Schedule → Type 0)
    (on_mark : (s : Schedule) (session : String) (table : List Schedule)
      → P s
      → is_due lib now s ≡ true
      → I table
      → I (rows_with s.id (marked_row now session) table)) where
  marked_or :
      (b : Bool) (e : Error) (x y : List Schedule) → I x → I y → I (unless_failed x y (answer b e))
  marked_or true e x y hx hy = hx
  marked_or false e x y hx hy = hy

  fired-Leaves :
      (s : Schedule) (table : List Schedule) (w : World)
      → P s
      → is_due lib now s ≡ true
      → I table
      → Leaves I (fired lib cipher (draws s.id) now s table w)
  unfolding fire mark_run reach
  fired-Leaves s table w p due h = after_decoding (lib.decode s.session_request)
    where
      marking : Session → M (Session × List Schedule)
      marking t = mark_run s.id now t.id table >>= λ marked. pure (t, marked)

      after_create :
          (r : Result Session) (v : World)
          → I (table_after table (bind_result marking (context_result "creating session" (r, v))).0)
      after_create (err e) v = h
      after_create (ok t) v =
          marked_or (next_fault v.faults) (wrapped "marking schedule run" lost) table
            (rows_with s.id (marked_row now t.id) table) h (on_mark s t.id table p due h)

      creating : CreateSessionRequest → Result Session × World
      creating req = create cipher (with_schedule s req) (draws s.id) w

      after_decoding :
          (o : Option CreateSessionRequest)
          → I (
              table_after table
                (bind_result
                  (λ req. λ v. bind_result marking (
                    context_result "creating session"
                      (create cipher (with_schedule s req) (draws s.id) v)))
                  (decoded o, w)).0)
      after_decoding none = h
      after_decoding (some req) = after_create (creating req).0 (creating req).1

  turn-Leaves :
      (s : Schedule) (table : List Schedule) (w : World)
      → P s
      → I table
      → Leaves I (turn lib cipher (draws s.id) now s table w)
  turn-Leaves s table w p h = elim (Bool-cases (is_due lib now s)) [
    | inl e ↦ rw e (fired-Leaves s table w p e h)
    | inr e ↦ rw e h
  ]

  run_listed-Leaves :
      (ss table : List Schedule) (w : World)
      → All P ss
      → I table
      → Leaves I (run_listed lib cipher draws now ss table w)
  unfolding run_listed
  run_listed-Leaves [] table w ps h = h
  run_listed-Leaves (s ∷ ss) table w (p, ps) h =
      go (turn lib cipher (draws s.id) now s table w) (turn-Leaves s table w p h)
        λ next v k. run_listed-Leaves ss next v ps k
    where
      go :
          (r : Result (List Schedule) × World)
          → Leaves I r
          → ((next : List Schedule) (v : World)
              → I next
              → Leaves I (run_listed lib cipher draws now ss next v))
          → Leaves I (bind_result (run_listed lib cipher draws now ss) r)
      go (ok next, v) k rest = rest next v k
      go (err e, v) k rest = absurd k

  pub run_due-Leaves :
      (table : List Schedule) (w : World)
      → ((s : Schedule) → In s table → s.enabled ≡ true → P s)
      → I table
      → Leaves I (run_due lib cipher draws now table w)
  unfolding run_due list_enabled reach
  run_due-Leaves table w ps h = go (next_fault w.faults)
    where
      later : World
      later = (reach lost w).1

      listing : Bool → Result (List Schedule) × World
      listing b =
          bind_result (λ _. pure (sort_by earlier (enabled_ones table)))
            (answer b (wrapped "listing schedules" lost), later)

      go : (b : Bool) → Leaves I (run_answer lib cipher draws now table (listing b).0 (listing b).1)
      go true = h
      go false =
          run_listed-Leaves (sort_by earlier (enabled_ones table)) table later
            (All-sort_by P earlier (enabled_ones table) (enabled_ones-All P table ps)) h
