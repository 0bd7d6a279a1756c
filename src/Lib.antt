-- ===== src/Lib.antt =====
-- Dev Platform: the decisions that its Python scripts take about checks, machine slots, task tiers and rollouts,
-- and about tasks: their routing, preflight, board, card and publication.
--
-- The scripts stand in `template/scripts`, which projects get a copy of, and in `scripts`, which the central
-- repository runs. Each reads its configuration and the answers of git and GitHub, decides, and then acts. The
-- model holds the decisions and the changes of state; a text, a list and a JSON value are modelled as data.
--
-- - Base: `Option`, lists, results of code that may raise (Base.Result), Python's `str.strip` (Base.Text),
--   `sorted(set(..))` (Base.Sorting) and JSON values (Base.Json).
-- - Checks: `template/scripts/select_checks.py`. Checks.Config is the configuration, Checks.Select `select_mapped`,
--   Checks.LeftToCi `leave_to_required_ci` and `select`, Checks.Status `commands_for`, `selection_status` and
--   `lease_weight`. A selection is split with the required check and then judged by its status.
-- - MachinePool: `template/scripts/machine_pool.py`. MachinePool.Slots is `_try_take_slots`, MachinePool.Queue the
--   ticket directory and `_admit_if_head`, MachinePool.Acquire `_create_ticket` and `_acquire`. The loop scans the
--   queue, and its head takes slots under the admission lock.
-- - StartTier: `template/scripts/start_tier_routing.py`.
-- - Rollout: Rollout.Version and Rollout.Identity are `template/scripts/rollout_identity.py`, Rollout.Supersession
--   `scripts/rollout_supersession.py`, Rollout.Streak `scripts/rollout_failure_streak.py`, with its regular
--   expression in Rollout.Block. Rollout.Supersession and Rollout.Streak take versions and eligible pull requests
--   from the first two.
-- - Publication: `template/scripts/publication_state.py`. Publication.Required is `required_check_state_for_ref` with
--   what it calls, Publication.ExactHead `stable_pr_ref` and `find_exact_head_pr`, and Publication.Observation
--   `observe_publication`, which composes the two.
-- - Board: `template/scripts/agent_board.py`. Board itself is the admission of a task, `_admission_conflicts` and
--   `_admit_item`. Its limit, five in the source, is a parameter, and the items are those other than the task's own.
--   Board.Registry has the commands that change the board; a run of commands is a derivation of `IsReachedBoard`.
--   Board.Status is `_status` and `claim_eligibility`, which ask Publication.ExactHead for a merged pull request.
--   Board.Scope is `enforce_scope_gate` with what it calls; it takes the file of the board, read, as an argument.
-- - Friction: the log and the review of `template/scripts/agent_friction.py`. Friction.Events is `read_events`,
--   Friction.State `read_state`, Friction.Review `pending_batch` and `mark_reviewed`, and Friction.Routes what
--   `route_pending` selects and `route_event` writes. They share the file of the review state.
-- - Preflight: `template/scripts/lifecycle_preflight.py`. Preflight.Conditions has the five checks, Preflight itself
--   `run_preflight`, which evaluates them all.
-- - Routing: the routing record of `template/scripts/model_routing.py`. Routing.Plan is `_validate_execution_plan`,
--   Routing.Record `_route_from_payload`, Routing.Evidence the retention policy and what counts as a launch,
--   Routing.Gate `require_routing_gate`, and Routing.Early `_early_routing_gate` and `check_task_write`. The gates get
--   the route that is read from the record; the fields that no gate reads are only required to be there.
-- - Card: the card of a task or a Requirement on its Project board, `template/scripts/managed_project_status.py`, of
--   which Card.Membership is `ensure_item`. Card.Requirement is `template/scripts/requirement_board.py`, which calls
--   `ensure_item`, `observe` and `reconcile`. Publication.ExactHead is asked before a task resumes. The statuses that
--   are sent are returned beside the result.
-- - Examples: the theorems at concrete inputs.
--
-- Code that is not in the repository is a parameter: `fnmatch`, the regular expression of ticket names (its order),
-- `json.loads` and `json.dumps`, `str`, `str.upper`, the comparison of a float with a number, the time that
-- `parse_time` reads, a digest, and the decimal value of a code point (`digit`).
--
-- The loops of `_create_ticket` and `_acquire` run over a list with one entry for each pass, which holds what the
-- pass sees of a machine that other processes change. A list that ends gives the outcome `waiting`; a list in which
-- a pass ends at the deadline is long enough. All other loops are over finite lists. Load and memory are natural
-- numbers in a unit that the limits share.
--
-- Not modelled: the launch of child agents and the metrics of Requirements, subprocesses, files and their
-- permissions, GitHub calls, printed reports, command lines, and the scripts that mostly consist of these. What git
-- and GitHub answer is an argument.
pub mod Base
pub mod Checks
pub mod MachinePool
pub mod StartTier
pub mod Rollout
pub mod Publication
pub mod Board
pub mod Friction
pub mod Preflight
pub mod Routing
pub mod Card
pub mod Examples
