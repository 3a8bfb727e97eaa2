-- ===== src/Lib.antt =====
-- Verification of the Enterprise LLM Assistant, a FastAPI application (app/) that gives a company's users a
-- chat with language models, documents to ask about, and agents.
--
-- The program's parts and how they interact: the routes of app/api call services (app/services), which keep
-- their state in repositories (app/repositories), session stores (app/security/sessions.py) and conversation
-- memories (app/memory), and which reach the outside through clients and providers, guarded by the policies
-- of app/policies. The parts that are modelled here are the accounts of the application, from the password
-- hash to the cookie of a browser, the limits on logins, the policies, the services that call a model with
-- them and chat, the conversation memory, the path of a document from its text to the index, the stores of
-- documents, findings and approvals, and the agents: a planner that asks a model, a router that calls tools, and
-- the tools that read and change a Kubernetes cluster, a change of which needs an approval, and the diagnosis of
-- alerts, which only reads it.
--
-- Which file models which part:
--   Prelude, Prelude/*: equality tests, lists with native numbers, Python's dict, str.strip, str.lower and
--     truth tests, and methods that change an object and may raise (Exec). The case of a letter is mapped for
--     the letters of ASCII.
--   Core/Settings: the attributes of app/core/config.py `Settings` that the modelled code reads. Every clock
--     reading and duration is a number of microseconds, unless its name or a comment says seconds.
--   Core/Exceptions: app/core/exceptions.py, and the exceptions of FastAPI and Python that the code raises.
--   Clients/Redis: app/clients/redis_client.py. The server is a parameter, the record Redis.
--   Security/AuthLimits: app/security/auth_limits.py `AuthRateLimiter` and `LoginLockoutStore`, with both
--     backends. AuthLimits/Window and AuthLimits/Serving are about sequences of calls of the limiter,
--     AuthLimits/Lockout is about the lockout; these three assume the dicts of the process as the backend.
--   Security/Sessions: app/security/sessions.py `InMemorySessionStore`, with Sessions/Index on its index by
--     user and Sessions/Runs on any sequence of its operations.
--   Security/RedisSessions: `RedisSessionStore` of the same file, over the Redis client, with RedisSessions/Keys on
--     its keys and the laws of the server. Security/SessionContract is what the two stores promise: the sessions
--     that can be read, and what a change does to them. Sessions/Refinement and RedisSessions/Refinement relate each
--     store to it, and RedisSessions/Agreement the one to the other. RedisSessions/Expiry is about a server that
--     drops keys when their time is over; elsewhere no key expires.
--   Security/Authentication: `ROLE_PERMISSIONS`, `require_permission`, `hash_password` and `verify_password`
--     of app/security/authentication.py. The bcrypt library is a parameter, the record Bcrypt; the hypothesis
--     IsLawful says that a password checks against its own hash and that a hash is not empty.
--   Repositories/Users: app/repositories/user_repository.py `InMemoryUserRepository`, with Users/Tokens on
--     verification and reset tokens, Users/Directory on its two dicts, and Users/Runs on any sequence of its
--     operations.
--   Services/AuthService: app/services/auth_service.py `AuthService` (register, login, logout, logout_all,
--     resolve_session), and in AuthService/Accounts its other methods (me, verify_email,
--     request_password_reset, reset_password, login_with_oauth). What a method draws (identifiers, tokens, a
--     salt, clock readings) is its argument Draws. AuthService/Accounts/Requests is about any sequence of these
--     requests, one after the other, with what one request does to the user dicts in Accounts/Directory and
--     what a sequence leaves of them in Accounts/Consistency.
--   Policies/Retry, Policies/CircuitBreaker: app/policies/retry.py, for calls that follow one another.
--   Services/LlmService: app/services/llm_service.py `LLMService`, with the policies around a provider, which is a
--     parameter, and the cache of app/cache, whose server, digest and serialisation, with the validation of what
--     is read, are a parameter; the
--     hypothesis IsLawful says that a result that was written is read back. Services/LlmService/Caching is about
--     what generate and stream answer. A cost is a number of units of 0.00000001 dollars.
--   Services/ChatService: app/services/chat_service.py `ChatService`, with the retriever and the embedding client
--     as a parameter (ChatService/Streaming has stream and stream_events), and ChatService/Conversation on what
--     it leaves in the memory. Services/Prompts:
--     app/prompt/prompt_builder.py `build_chat_prompt`. Security/Guardrails: app/security/guardrails.py, each
--     pattern as the phrases it matches.
--   Memory: app/memory/memory_store.py and `InMemoryConversationMemory` of app/memory/conversation_memory.py.
--   Ingestion/Splitter: `RecursiveTextSplitter` of app/services/ingestion_service.py. Ingestion/Extraction:
--     app/extraction/registry.py `ExtractionRegistry`. Ingestion/Service: `IngestionService` of
--     app/services/ingestion_service.py, with the embedding client and the vector database as a parameter, and
--     Service/Indexing on what it leaves in the repository.
--   Repositories/Documents: app/repositories/in_memory_document_repository.py. Services/DocumentService: the
--     deletions of app/services/document_service.py.
--   Repositories/Findings, Repositories/Approvals: `FindingStore` and `ApprovalStore` of
--     app/repositories/finding_repository.py, with the records of app/models/ops.py.
--   Services/Alerts: the alerts of app/models/ops.py. Services/OpsSetup, Services/OpsAdvisory, Services/OpsDiagnosis:
--     app/services/ops_diagnosis_service.py `OpsDiagnosisService`, with its parts in the record Setup, the
--     hypothesis in OpsAdvisory, and OpsDiagnosis/Steps and OpsDiagnosis/Once on what a diagnosis does.
--     Services/OpsNotifier: app/services/ops_notifier.py. Repositories/Findings/Heard and Findings/Filed are the
--     invariants of the store of findings that these need.
--   Api/Alertmanager and Api/Ops: app/api/ops.py, with Ops/Requests on a request of the webhook. The server of
--     Slack, the numbers with a fraction and the validation of Pydantic are parameters.
--   Security/Browser: app/security/cookies.py and app/security/csrf.py, with Browser/Csrf on the requests that the CSRF
--     check refuses. Middleware/Auth: app/middleware/auth.py, with
--     the library jose as a parameter. Api/Auth: app/api/auth.py, with Auth/Guards on what its handlers let through;
--     its OAuth routes are Api/Oauth, with the registry of app/security/oauth_providers.py and each provider as a
--     parameter, and Oauth/Replay on the state of the flow.
--   Middleware/RateLimit: app/middleware/rate_limit.py `RateLimitMiddleware`.
--   Core/Json: the values of a JSON document. Core/Json/Values: what Python does with them. The text of a document,
--     the texts of numbers and the errors of the json module are a parameter, the record JsonText.
--   Clients/KubernetesApi: the API of the kubernetes package that the client calls, a parameter, the record Cluster:
--     a state and a function for each call. Clients/Kubernetes: app/clients/kubernetes_client.py
--     `KubernetesClient`, with Clients/Kubernetes/Patches on the calls that change the cluster and
--     Clients/Kubernetes/Query on `parse_k8s_query`.
--   Tools/*: app/tools (KubernetesTool, K8sPlaybookTool, and the shell, SQL and weather tools in Tools/Demos) and
--     app/agents/tool_router.py with app/agents/executor.py in Tools/Router. Tools/Kubernetes/ReadOnly and
--     Tools/Playbook/Gate are about what a tool does to the cluster.
--   Services/OutputParser: app/parser/output_parser.py.
--   Agents: `Planner` and `AgentService._prepare_playbook_input` of app/agents; Agents/Run has `run`, with Run/Safety
--     and Run/Proposal on what a run does to the cluster and the approvals and Run/Steps on its length;
--     Agents/Approve has `approve_and_execute`. The order in which Python goes through the set of approved ids is a
--     parameter.
--   Examples/*: concrete stores and inputs, tests, and one application of each result.
--
-- Fuel: the splitter's loop runs on as many rounds as the text has characters, which is enough because its
-- start grows in every round. The loop of an agent has the bound of the source, `max_iterations`.
-- Every other loop is recursion on a list or on a count of the source.
--
-- Not modelled: the routes that only hand a request to a service, the database implementations of the stores, model
-- providers, retrieval; the inside of JSON web tokens; the passing of time in Redis, which is the server's.
pub mod Prelude
pub mod Core
pub mod Clients
pub mod Security
pub mod Repositories
pub mod Policies
pub mod Memory
pub mod Services
pub mod Ingestion
pub mod Examples
pub mod Middleware
pub mod Tools
pub mod Agents
pub mod Api
