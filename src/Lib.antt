-- ===== src/Lib.antt =====
-- Verification of the Genesis agent runtime (src/genesis, Python).
--
-- Genesis runs agents within limits that a Backend has issued. It takes a request of the Backend,
-- bounds the context that the agent sees, and lets a run delegate to a child run only inside the
-- parent's authority and budget. It selects skills, drafts capabilities and agents for Backend to
-- review, and does research whose results cite evidence. The parts that decide this are modelled here
-- as functions, file by file:
--
--   Contracts                   JSON values; src/genesis/contracts/catalog.py
--   Platform                    what is used of Python and pydantic and not implemented here
--   Runtime.Limits              src/genesis/runtime/limits/models.py
--   Runtime.Context.Models      src/genesis/runtime/context/models.py
--   Runtime.Context.Budgeting   src/genesis/runtime/context/budgeting.py
--   Runtime.Context.Injection   the patterns of src/genesis/runtime/context/safety.py
--   Runtime.Context.Safety      src/genesis/runtime/context/safety.py
--   Runtime.Context.Manager     src/genesis/runtime/context/manager.py (Goal: its line 77)
--   Agents                      src/genesis/agents/definitions/models.py
--   ModelGateway                src/genesis/model_gateway
--   Runtime.Agentic             src/genesis/runtime/agentic
--   Capabilities                src/genesis/capabilities/resolver
--   ControlPlane                src/genesis/control_plane/service.py
--   ControlPlane.Factory        src/genesis/control_plane/factory
--   Skills                      src/genesis/skills/loader/models.py
--   Skills.Selection            src/genesis/skills/selection
--   Skills.Evaluator            src/genesis/skills/evaluator
--   Skills.Authorization        src/genesis/skills/authorization.py
--   Skills.Loading              src/genesis/skills/progressive_loading and skills/runtime
--   Research.Domains, Sources   src/genesis/research/domains/taxonomy.py and sources/models.py
--   Research.Decision           src/genesis/research/decision.py
--   Research.Engine             src/genesis/research/engine/service.py
--   Research.Documents          src/genesis/research/engine/document_intelligence.py
--   Research.Comparison         src/genesis/research/engine/comparison.py
--   Memory                      src/genesis/memory/ranking/service.py
--   Orchestration.Delegation    src/genesis/orchestration/delegation/models.py and guard.py
--
-- How the parts interact: `ContextManager.build` validates the execution context against the catalog
-- and against the boundary (Safety), checks the segments of the caller (Safety, Injection), adds three
-- segments of its own, selects within the character budget (Budgeting), and validates the resulting
-- bundle against the catalog again. `DelegationGuard.validate` compares a request with the state of the
-- parent, and budgets by `ExecutionBudget.contains` (Limits).
--
-- `AgentRuntimeEngine.run` validates the request, checks the authorization of Backend, asks the planner,
-- calls the planned tools one by one, asks the model gateway, and writes a result. Planner, tools, model
-- and clock are ports that change a `World`, which the model leaves open, and may raise; a theorem
-- about a run holds for all ports and worlds (Runtime.Agentic.Actions composes the statements).
--
-- `CapabilityResolver.resolve` reads the words of a requirement and decides between reuse and creation
-- by the catalog that Backend supplies. `SkillSelector.select` filters skills by what Backend grants and
-- ranks the rest; `SkillRuntime.prepare` runs it for a snapshot of what Backend and the agent both grant,
-- and loads what it selects.
--
-- `ExternalResearchDecider.decide` checks the evidence against the scopes and the classification of the
-- request, then prefers internal evidence to memory and memory to a retrieval by Backend, and
-- validates what it writes against the catalog. Research.Decision.Rules states when a request calls
-- for which decision.
--
-- `ResearchEngine.research` takes or retrieves a bundle, compares its identity with that of the execution
-- context, asks the model within a token limit, and writes a result that cites references of the bundle.
-- Its provider, its model and its clock are ports like those of the runtime engine.
--
-- `DocumentIntelligence.analyze` asks the model about one source and checks the answer against its lines.
-- `DocumentComparisonIntelligence.compare` groups documents by hash and by the values of their fields.
--
-- `EvidenceAwareRanker.rank` orders the items of a bundle by how many words of a query they have, and
-- keeps the references of the items that it selects.
--
-- `CapabilityFactory.analyze` lets the resolver decide, and then refers to the catalog or drafts a
-- capability and, where the resolution requires it, an agent. Each payload is validated against the
-- catalog of contracts before it is used.
--
-- Conventions. A method that raises returns a `Result`, with the exception as `err`; statements in
-- order are its do blocks. A frozen model is a record, a StrEnum a data type. Tuples, frozensets and
-- mappings are lists; a set is only asked for its members. `sorted` is a stable insertion sort, and
-- `dict.fromkeys` keeps the first of equal keys. A limit is a natural number, since the models refuse
-- negative ones; a cost is the bit pattern of a non-negative float, which orders as the float does (-0.0
-- counts as 0.0). The JSON Schema validator answers with its list of errors; that it may itself raise, on
-- a schema that is not one, is left out. A datetime is its number of microseconds. A model that a caller
-- passes in has been validated, so the
-- constraints of its fields are stated only where the code builds a model itself.
--
-- Every loop of the source that is modelled runs over a finite list and is structural recursion; no
-- function takes fuel.
--
-- Not modelled: the JSON Schema validator, the hash, `json.dumps`, the date formats, `str.format_map` and
-- the case conversions of `str`, which are parameters (Platform, CanonicalContractCatalog, Builtins,
-- Libraries and TextMethods of the parts); reading files, also the package loader of skills; the
-- retrieval of memory; the HTTP interface, the database and the adapters, which are input and output.
mod Prelude
pub mod Contracts
pub mod Platform
pub mod Agents
pub mod ModelGateway
pub mod Capabilities
pub mod Runtime
pub mod Skills
pub mod Orchestration
pub mod Research
pub mod Memory
pub mod ControlPlane
