-- ===== src/FlowGraph/Entry.antt =====
-- packages/flow-graph/src/runtime.ts: how a run is opened, by `start`, `resume` or `recover`, up to
-- the first turn of its loop. A started flow is a snapshot that passed its checks; `accepts_input` is
-- its input schema and `preflight` the check of the flows that it refers to. `resolve` is what the
-- resolver and the check of a pinned definition (digest.ts) make of a frame's pin; that the graph has
-- a resolver and validators is taken for granted. Logs are left out.
use sozai.Common.{ℕ, Bool, true, false, Option, none, some, List, [], ◌∷◌, if◌then◌else◌, not}
use sozai.Common.Json.{Json}
use sozai.Common.Text.{Text}
use sozai.Common.Fields.{Fields}
use sozai.Common.Result.{Result, ok, err, ◌>>=◌}
use sozai.FlowGraph.Types.{running, FlowPin, FlowDefinition, Frame, Pending, RunState}
use sozai.FlowGraph.Time.{Dates}
use sozai.FlowGraph.Commits.{NodeKind, Runner, PreparedFlow, fresh_frame}
use sozai.FlowGraph.Checks.{Issue, is_running, is_suspended, assert_run_state_shape}
use sozai.FlowGraph.Definitions.{MisfitIssue, assert_run_state_definitions}
use sozai.FlowGraph.Resume.{ResumeEvent, ResumeIssue, validate_resume_event}
use sozai.FlowGraph.Execution.{Compilation, compiles_by}
use sozai.FlowGraph.Turns.{Options}

-- Why a stored run is not opened.
pub data EntryError : Type 0 where
  bad_shape : Issue → EntryError
  not_suspended nothing_pending not_running : EntryError
  bad_event : ResumeIssue → EntryError
  unresolved : FlowPin → EntryError
  misfit : MisfitIssue → EntryError
  bad_input bad_flows : EntryError

-- The operation that opens the run: a flow's start with the run's id and input, or a stored state's
-- resumption or recovery.
pub data Entry : Type 0 where
  starts : PreparedFlow → Text → Json → Entry
  resumes : ResumeEvent → RunState → Entry
  recovers : RunState → Entry

-- `runner.mode === 'recover'`
abbrev pub is_recovering : Entry → Bool
is_recovering (recovers s) = true
is_recovering (resumes event s) = false
is_recovering (starts flow run_id input) = false

abbrev pub start_state : PreparedFlow → Text → Json → RunState
start_state flow run_id input = record {
  run_id = run_id;
  revision = 0;
  status = running;
  frames = fresh_frame flow input none ∷ [];
  steps = 0;
  invocation = 0;
  in_flight = none;
  origin = none;
  pending = none;
  outcome = none;
  output = none;
  error = none;
}

-- An error where a check finds an issue.
abbrev pub unless {ℓ} :
    {A : Type ℓ} → (A → EntryError) → Option A → RunState → Result EntryError RunState
unless wrap none s = ok s
unless wrap (some issue) s = err (wrap issue)

module _ (dates : Dates) (compile : Json → Compilation) (accepts : Json → Json → Bool)
    (options : Options) (kinds : Fields NodeKind) (resolve : FlowPin → Option FlowDefinition)
    (accepts_input : FlowDefinition → Json → Bool) (preflight : FlowDefinition → Bool)
    (now : ℕ) where
  unfoldable pub validate_shape : RunState → Result EntryError RunState
  validate_shape s =
      unless bad_shape (assert_run_state_shape dates (compiles_by compile) options.max_depth s) s

  abbrev pub validate_event : ResumeEvent → Option Pending → RunState → Result EntryError RunState
  validate_event event none s = err nothing_pending
  validate_event event (some pending) s =
      unless bad_event (validate_resume_event dates accepts now pending event) s

  abbrev pub resolved : FlowPin → Option FlowDefinition → Result EntryError FlowDefinition
  resolved pin none = err (unresolved pin)
  resolved pin (some definition) = ok definition

  unfoldable pub resolve_all : List Frame → Result EntryError (List FlowDefinition)
  resolve_all [] = ok []
  resolve_all (frame ∷ frames) = resolved frame.flow (resolve frame.flow) >>= λ definition.
      resolve_all frames >>= λ rest. ok (definition ∷ rest)

  -- `resolveFrames`, which prepares the runner on the first `next()` unless the signal is aborted.
  unfoldable pub resolve_frames : RunState → Result EntryError Runner
  unfolding resolve_all
  resolve_frames s = resolve_all s.frames >>= λ definitions.
      unless misfit (assert_run_state_definitions kinds definitions s) s >>= λ state.
      ok (record { state = state; definitions = definitions; kinds = kinds; fired = [] })

  abbrev pub started : PreparedFlow → RunState → Result EntryError Runner
  started flow s =
      if preflight flow.definition
      then ok (record { state = s; definitions = flow.definition ∷ []; kinds = kinds; fired = [] })
      else err bad_flows

  unfoldable pub open_run : Entry → Result EntryError Runner
  unfolding validate_shape resolve_frames
  open_run (starts flow run_id input) =
      if accepts_input flow.definition input
      then started flow (start_state flow run_id input)
      else err bad_input
  open_run (resumes event s) = validate_shape s >>= λ s.
      if not (is_suspended s.status)
      then err not_suspended
      else validate_event event s.pending s >>= λ s. resolve_frames s
  open_run (recovers s) = validate_shape s >>= λ s.
      if not (is_running s.status) then err not_running else resolve_frames s
