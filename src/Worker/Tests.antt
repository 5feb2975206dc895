-- ===== src/Worker/Tests.antt =====
-- The theorems on the workers, applied at concrete sessions.
use mathlib.Core.Bool.{false≢true}
use codeforge.Prelude.{
  ◌≢◌, eq_iff, String, List, ◌<>◌, inr, ◌≡◌, refl, String, true, false, none, some, [], ◌∷◌, update,
  contains, ◌=s◌,
}
use codeforge.Session.Status.{pending, canceled, running, awaiting_instruction, completed, failed}
use codeforge.Session.World.{World, up, entry_hash}
use codeforge.Session.Samples
use codeforge.Session.Samples.{
  draws, two_sessions, marking, day_settings, entry_in, no_entries, world_of,
}
use codeforge.Prelude.Int.{pos}
use codeforge.Session.Service.{new_session}
use codeforge.Session.World.{World, ok, status_at}
use codeforge.Session.World.Statuses.{Moved}
use codeforge.Session.Trace.{creates, moves, instructs, outages, ticks}
use codeforge.Worker.Executor.{
  Env, ran, unready, going, shut_down, terminate_on_error, setup_workspace,
}
use codeforge.Worker.Executor.Endings.{terminate_on_error-Ends, setup_workspace_gone}
use codeforge.Worker.Trace.{
  Event, request, round, restart, sweeping, history, history-Moved, finished_forever, Undisturbed,
}
use codeforge.Worker.Pool.{recover_processing}
use codeforge.Worker.Pool.Recovery.{recover_processing_lem, Recoverable, Held}
use codeforge.Worker.Sweeper.{sweep_one, stuck_message}
use codeforge.Worker.Sweeper.Effects.{sweep_one_lem, is_spared}

-- "a" was at work when the server stopped, "b" was done.
abbrev crashed : World
crashed =
    record (world_of
      (update (update no_entries "a" (some (entry_in running))) "b" (some (entry_in completed)))
      none) { processing = "b" ∷ "a" ∷ [] }

recover_processing_example :
    let w' = (recover_processing day_settings marking (up crashed)).1 in
    (w'.processing ≡ [])
    × ((j : String) → contains crashed.processing j ≡ true → Recoverable j crashed → Held j w')
recover_processing_example = recover_processing_lem day_settings marking crashed

-- "a" has got a new instruction since the sweeper listed it.
abbrev instructed_since : World
instructed_since = world_of (update no_entries "a" (some (entry_in awaiting_instruction))) none

sweep_one_example :
    let w' = (sweep_one day_settings "a" (up instructed_since)).1 in
    (is_spared awaiting_instruction ≡ true → w'.state ≡ instructed_since.state)
    × (is_spared awaiting_instruction ≡ false
        → ((entry_hash (w'.state "a")).status ≡ some failed)
          × ((entry_hash (w'.state "a")).error ≡ some stuck_message)
          × ((j : String) → ("a" =s j) ≡ false → w'.state j ≡ instructed_since.state j))
sweep_one_example = sweep_one_lem day_settings "a" awaiting_instruction instructed_since refl

-- A run that ends with a result, in an environment without pull requests.
abbrev quiet : Env
quiet = record {
  default_timeout = pos 300;
  max_timeout = pos 600;
  resolve_token = none;
  reusable = λ _. none;
  work_dir = λ k. "/ws/" <> k;
  dir_exists = λ _. false;
  prepare_clone = λ _. none;
  setup_mcp = λ _ _. ok "";
  run_cli = λ _ _ _.
      ran (record { output = "done"; input_tokens = 1; output_tokens = 2; duration_seconds = 3 });
  run_review = λ _ _. unready "no agent";
  deadline = false;
  ended = going;
  calculate_changes = λ _. none;
  parse_review = λ _. record {
    verdict = "comment";
    score = pos 0;
    summary = "";
    issues = [];
    auto_fixable = false;
    reviewed_by = "claude-code";
    duration = 0;
  };
  default_cli = "claude-code";
  review_dir = λ t. "/ws/" <> t.id;
  truncate = λ s. s;
  auto_pr_description = λ s. s;
  pr_creator = none;
  raced = false;
}

c≢a : ◌≢◌ {A = String} "c" "a"
c≢a h = false≢true ((eq_iff "c" "a").1 h)

c≢b : ◌≢◌ {A = String} "c" "b"
c≢b h = false≢true ((eq_iff "c" "b").1 h)

abbrev events : List Event
events =
    request (creates Samples.request draws)
    ∷ round quiet false
    ∷ request (outages (true ∷ []))
    ∷ restart
    ∷ request (moves "b" running)
    ∷ request (instructs "c" "and the docs")
    ∷ round quiet true
    ∷ request (ticks 3)
    ∷ sweeping 1
    ∷ []

Undisturbed-a : Undisturbed "a" events
Undisturbed-a = (c≢a, (tt, (tt, (tt, (tt, tt)))))

Undisturbed-b : Undisturbed "b" events
Undisturbed-b = (c≢b, (tt, (tt, (tt, (tt, tt)))))

history-Moved_example :
    Moved
      (status_at two_sessions "a")
      (status_at (history day_settings marking events two_sessions) "a")
history-Moved_example = history-Moved day_settings marking events "a" two_sessions Undisturbed-a

finished_forever_example :
    status_at (history day_settings marking events two_sessions) "b" ≡ some canceled
finished_forever_example =
    finished_forever day_settings marking events "b" two_sessions canceled refl refl Undisturbed-b

terminate_on_error-Ends_example :
    (u : World) × (terminate_on_error day_settings
        (new_session Samples.request "p" "a" 1)
        1
        "e"
        shut_down
        (up two_sessions)
      ≡ (ok tt, up u))
    × (status_at u "a" ≡ some pending)
    × (u.queue ≡ two_sessions.queue)
    × (u.processing ≡ two_sessions.processing)
terminate_on_error-Ends_example =
    terminate_on_error-Ends day_settings (new_session Samples.request "p" "a" 1) 1 "e" shut_down
      running two_sessions refl (inr refl)

-- "a" has waited too long for its second iteration: its workspace is gone.
setup_workspace_gone_example :
    let t = record (new_session Samples.request "p" "a" 1) { iteration = 2 } in
    let (r, w') = setup_workspace quiet day_settings t 1 (up instructed_since) in
    (r ≡ ok none) × (status_at w' "a" ≡ some failed)
setup_workspace_gone_example =
    setup_workspace_gone quiet day_settings
      (record (new_session Samples.request "p" "a" 1) { iteration = 2 }) 1 instructed_since refl
      refl refl refl refl

abbrev fresh : World
fresh = world_of (update no_entries "a" (some (entry_in pending))) none
