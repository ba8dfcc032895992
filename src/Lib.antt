-- ===== src/Lib.antt =====
-- Verification of the realityai-agents services: a Python multi-agent system in which a graph of
-- nodes serves a request: it passes an outer safety gate, an agent answers it, every action of the
-- agent passes an inner gate, and the response goes out through a filter.
--
-- Which file models what (paths from the repository's root):
--   Prelude, Python     shared helpers; values of a `dict[str, Any]`, exceptions as results (`Py`), and
--                       the interpreter's text functions as the record `Runtime`
--   State, Orchestrator agent-core/state.py and agent-core/orchestrator.py: the nodes, the conditional
--                       edges, and the graph's run (`ainvoke`) with its pause for an approval (`resume`)
--   Preprocessing       agent-core/preprocessing: the gate, the prompt and the fallbacks of the
--                       coreference resolver
--   Outer/Schemas       agent-core/safety/outer/schemas.py
--   Outer/Rbac          agent-core/safety/outer/rbac.py and config/rbac_matrix.yaml (`check_rbac`)
--   Outer/StaticRules   agent-core/safety/outer/static_rules.py and config/static_rules.yaml
--                       (`matches`, `check_static_rules`)
--   Outer/InjectionGuard  agent-core/safety/outer/injection_guard.py (`check_injection`)
--   Outer/Node          agent-core/safety/outer/node.py (`outer_safety_check`)
--   Inner/Schemas, Inner/ToolAuthorization, Inner/ParameterValidation, Inner/LiveState, Inner/Audit and
--   Inner/Node          the modules of agent-core/safety/inner, function by function; Inner/Pattern is
--                       the matcher for the regular expressions of parameter_validation.py
--   OutputFilter        agent-core/safety/output_filter.py
--   Action/Tools, Action/Step, Action/Subgraph, Action/Agent
--                       agent-core/agents/action_agent.py: the tools, `run_action_step`, the compiled
--                       subgraph with its boundary of agents/subgraph_states.py, `run_action_agent`
--   Reasoning           agent-core/reasoning and the schemas it reads (agent-core/schemas)
--   Degradation         agent-core/agents/degradation.py, with an agent and its world as parameters
--   Planning/Plan       agent-core/schemas/plan.py: the validators of a plan and its layers
--   Planning/Sources, Planning/Params, Planning/Syllabus, Planning/Query
--                       agent-core/agents/query_agent.py: the sources and `run_query_step`
--   Planning/Steps, Planning/Node, Planning/Run, Planning/Agent
--                       agent-core/agents/planning_agent.py: the steps by their kind, the node of a
--                       step, the run of the compiled plan, and `run_planning_agent`; what steps hand
--                       on is in Planning/Outputs
--   Service/Cache       agent-core/caching/response_cache.py
--   Service/RateLimit   api-gateway/middleware/rate_limit.py
--   Tests               sample data and the theorems at concrete inputs
-- The children of these files hold the proofs and are named for what they prove.
--
-- How the parts interact: the orchestrator's graph calls the outer gate, and by its verdict the
-- coreference resolver and an agent, the rejection, or the approval node, in front of which it
-- pauses; all paths meet at the response and the output filter. The action agent reaches a tool
-- through the inner gate only, from a plan (`run_action_step`) or from its own subgraph. The
-- planning agent has the model's plan validated and runs it superstep by superstep, as the runtime
-- of its graph does: a step reads what the steps before it have put out, an exception is put out
-- like a result, and action steps go through `run_action_step` with the session of the caller. The
-- inner gate returns an audit record, which the caller persists with the outcome of the execution,
-- while a denial is persisted by the gate. State is passed explicitly: the graph's state, in which
-- each node updates some fields; the world outside it, of any type; the audit store, the cache, the
-- limiter; and `Effects`, the store together with the tools invoked so far, which stay also where an
-- exception leaves the step.
--
-- Conventions: measured latencies and log lines are left out. Times are whole ticks of the clock on
-- the native numbers, and a test `t > now - w` is written `now < t + w`. Dictionaries are
-- association lists whose first entry of a key counts. Loops are over lists, but for those that
-- count down: the decimal numerals, where the number itself is enough; the attempts of the
-- degradation wrapper, which are two in the code; and the steps of the graph, which the runtime
-- bounds by 25 of its own, where the longest path has eight nodes. The loops of a plan's validation
-- and layers have its number of steps as fuel, as each round takes a step; the supersteps of a run
-- are bounded by a limit of the runtime, any number here.
--
-- Parameters: the Unicode tables, `re.search`, `re.sub`, `str.split` and substring search of the
-- interpreter, and the order in which it lists a set; SHA-256; its floats in the scores, the
-- confidence and the ranks; the language models behind the intent and the coreference resolver, whose
-- answers are any object of their schema, None for the resolver, or an exception; the model of the action agent, whose answer
-- comes in parsed or is an exception; the agent that the degradation wrapper is given; the prompt classifier; the query and the planning agent in the graph; in a plan, `int`,
-- `str`, iteration over a value, the upper case and the ends of a text, pydantic's validation of
-- field types and constraints, and `hybrid_retrieve`; `_read_course_state`, of which the mock is one
-- instance; LangChain's `tool.invoke`; the gRPC client; pydantic's error; the drawn audit id and
-- time; `hash`.
--
-- Left out within what is modelled: of the action agent's model, a tool, question or confirmation that
-- is no text and arguments that are no dict, with which no tool is called; exceptions in the making of the resolver's client; a
-- classifier's score that is an integer beyond the floats; negative ids in a step's dependencies.
--
-- Not modelled: the query agent's own graph for a single question, retrieval, content isolation and
-- the gateway's routes; the Prompt Guard models, prompts, tracing, the command line and the
-- evaluation tools, which are input and output or third-party code; the checkpointer, which stores
-- the state of a paused call as it is; the Java core service, which the agents see through the gRPC
-- client only.
pub mod Prelude
pub mod Python
pub mod Outer
pub mod Preprocessing
pub mod Inner
pub mod OutputFilter
pub mod Action
pub mod State
pub mod Orchestrator
pub mod Degradation
pub mod Planning
pub mod Reasoning
pub mod Service
mod Tests
