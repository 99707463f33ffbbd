-- ===== src/FlowGraph/Accepted.antt =====
-- What the executor of run-execution.ts lets through is fit to be applied.
use sozai.Common.{
  [], ◌∷◌, ℕ, ◌<◌, ◌≡◌, refl, ap, sym, Bool, true, false, Option, none, some, arith, is_some,
  if◌then◌else◌, ◌&&◌, ◌||◌, not,
}
use sozai.Common.Lists.{length}
use sozai.Common.Text.{Text, txt, includes, truthy}
use sozai.Common.Json.{Json}
use sozai.Common.Result.{Result, ok, >>=-eq-ok, ok-injective}
use sozai.FlowGraph.Types.{Continuation, FlowNode, RunState}
use sozai.FlowGraph.Time.{Dates}
use sozai.FlowGraph.Checks.{bad_time}
use sozai.FlowGraph.Commits.{
  NodeError, NodeKind, PreparedFlow, NodeResult, push, replace, go_to, finish, suspend, Staged,
}
use sozai.FlowGraph.Execution.{
  Compilation, compiled, uncompilable, unavailable, compiles_by, Thrown, fail_with, Answer,
  cut_short, answered, nothing, rejected, Executed, prepare_for, check_schema, bad_deadline,
  check_result, run_one,
}
use sozai.FlowGraph.Results.{IsChecked}

-- A result that the runner can apply: a pushed or replaced flow is prepared, a target is one of the
-- node's, only a terminal kind ends the flow, and only a kind that resumes suspends it.
abbrev pub IsFit : FlowNode → NodeKind → Option PreparedFlow → NodeResult → Type 0
IsFit node kind prepared (push input c) = is_some prepared ≡ true
IsFit node kind prepared (replace input) = is_some prepared ≡ true
IsFit node kind prepared (go_to target) = includes (kind.targets node) target ≡ true
IsFit node kind prepared (finish outcome output) = kind.terminal ≡ true
IsFit node kind prepared (suspend prompt schema value deadline) = kind.can_resume ≡ true

-- An answer that suspends the node does not give the empty text as a deadline.
abbrev pub IsDated : Answer → Type 0
IsDated (answered (suspend prompt schema value (some t)) carried staged) = truthy (some t) ≡ true
IsDated _ = Unit

dated-bad_time :
    (dates : Dates) (deadline : Option Text) (prompt schema value : Option Json)
    (carried : Option Json) (staged : Staged)
    → IsDated (answered (suspend prompt schema value deadline) carried staged)
    → bad_deadline dates deadline ≡ false
    → bad_time dates deadline ≡ false
dated-bad_time dates none prompt schema value carried staged d h = refl
dated-bad_time dates (some []) prompt schema value carried staged d h = cc
dated-bad_time dates (some (c ∷ t)) prompt schema value carried staged d h = ground arith

module _ (dates : Dates) (compile : Json → Compilation) (node_id : Text) (node : FlowNode)
    (kind : NodeKind) (max_depth : ℕ) (prepare : Result NodeError PreparedFlow) (s : RunState) where
  -- A prepared flow leaves room on the stack.
  prepared_room :
      (input : Json) (c : Continuation) (prepared : Option PreparedFlow)
      → prepare_for max_depth kind prepare s (push input c) ≡ ok prepared
      → is_some prepared ≡ true
      → length s.frames < max_depth
  unfolding prepare_for
  prepared_room input c prepared h p = ground arith

  -- What a result that passes is, and what passing shows of it.
  abbrev IsLet : NodeResult → Option PreparedFlow → Executed → Type 0
  IsLet result prepared x =
      (x.result ≡ result)
      × (x.prepared ≡ prepared)
      × IsChecked dates (compiles_by compile) max_depth s result
      × IsFit node kind prepared result

  past_gate :
      (gate : Bool) (go : Result Thrown Executed) (x : Executed)
      → (if gate then fail_with (txt "invalid_suspend") else go) ≡ ok x
      → (gate ≡ false) × (go ≡ ok x)
  past_gate true go x h = cc
  past_gate false go x h = (refl, h)

  let_schema :
      (schema : Option Json) (x y : Executed)
      → check_schema compile schema y ≡ ok x
      → (x ≡ y) × ((k : Json) → schema ≡ some k → compiles_by compile k ≡ true)
  let_schema none x y h = (sym (ok-injective h), λ k e. cc)
  let_schema (some schema) x y h = go (compile schema) refl
    where
      go :
          (c : Compilation)
          → compile schema ≡ c
          → (x ≡ y) × ((k : Json) → some schema ≡ some k → compiles_by compile k ≡ true)
      go compiled e = (ground arith, λ k q. ground arith)
      go uncompilable e = ground arith
      go unavailable e = ground arith

  through-IsLet :
      (carried : Option Json) (staged : Staged) (prepared : Option PreparedFlow)
      (result : NodeResult) (x : Executed)
      → IsDated (answered result carried staged)
      → prepare_for max_depth kind prepare s result ≡ ok prepared
      → check_result dates compile node_id node kind carried
          (record { result = result; staged = staged; prepared = prepared })
          result
        ≡ ok x
      → IsLet result prepared x
  unfolding check_result
  through-IsLet carried staged none (push input c) x _ p h = ground arith
  through-IsLet carried staged (some flow) (push input c) x _ p h = (
    ap (λ (y : Executed). y.result) (sym (ok-injective h)),
    ap (λ (y : Executed). y.prepared) (sym (ok-injective h)),
    prepared_room input c (some flow) p refl,
    refl,
  )
  through-IsLet carried staged none (replace input) x _ p h = ground arith
  through-IsLet carried staged (some flow) (replace input) x _ p h = (
    ap (λ (y : Executed). y.result) (sym (ok-injective h)),
    ap (λ (y : Executed). y.prepared) (sym (ok-injective h)),
    tt,
    refl,
  )
  through-IsLet none staged prepared (go_to target) x _ p h =
      (ground arith, ground arith, tt, ground arith)
  through-IsLet (some v) staged prepared (go_to target) x _ p h =
      (ground arith, ground arith, tt, ground arith)
  through-IsLet carried staged prepared (finish outcome output) x _ p h =
      (ground arith, ground arith, tt, ground arith)
  through-IsLet carried staged prepared (suspend prompt none value deadline) x d p h = (
    ground arith,
    ground arith,
    dated-bad_time dates deadline prompt none value carried staged d (ground arith),
    ground arith,
  )
  through-IsLet carried staged prepared (suspend prompt (some schema) value deadline) x d p h =
      let y : Executed = record {
        result = suspend prompt (some schema) value deadline;
        staged = staged;
        prepared = prepared;
      } in
      let (gate, rest) =
        past_gate (not kind.can_resume || bad_deadline dates deadline)
          (check_schema compile (some schema) y) x h in
      let (e, fine) = let_schema (some schema) x y rest in
      (
        ap (λ (z : Executed). z.result) e,
        ap (λ (z : Executed). z.prepared) e,
        (
          dated-bad_time dates deadline prompt (some schema) value carried staged d (ground arith),
          fine schema refl,
        ),
        ground arith,
      )

  -- What the executor lets through from an answer can be applied: a called flow stays within the
  -- depth, an input has a canonical deadline and a schema that compiles, a pushed or replaced flow
  -- is prepared, a target is one of the node's, only a terminal kind ends the flow and only a kind
  -- that resumes suspends it.
  pub run_one-IsFit :
      (resuming : Bool) (a : Answer) (x : Executed)
      → IsDated a
      → run_one dates compile node_id node kind max_depth prepare resuming s a ≡ ok x
      → IsChecked dates (compiles_by compile) max_depth s x.result
        × IsFit node kind x.prepared x.result
  unfolding run_one
  run_one-IsFit resuming (cut_short e) x d h = cc
  run_one-IsFit resuming (rejected e) x d h = ground arith
  run_one-IsFit resuming nothing x d h = ground arith
  run_one-IsFit resuming (answered result carried staged) x d h =
      let (_, h1) = past_gate (resuming && not kind.can_resume) _ x h in
      let (prepared, e, h2) = >>=-eq-ok (prepare_for max_depth kind prepare s result) _ h1 in
      let (r, p, good, fit) = through-IsLet carried staged prepared result x d e h2 in
      rw (r, p) (good, fit)
