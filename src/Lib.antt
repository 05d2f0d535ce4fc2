-- ===== src/Lib.antt =====
-- The Python side of the treasury intent controller: the declarant that asks a gate service for an
-- authorization before it acts, and the code around it.
--
--   Json         the bytes of json.dumps for texts and flat objects of texts, as the program calls it.
--   Declare      declarant/pydeclarant/declare.py: the request and its wire bytes (marshal_request), the
--                idempotency key (derive_key), the intent id and the classification of terminals
--                (classify) and of feed records (classify_feed_record). Declare/Vocabulary is the closed
--                vocabulary of CONTRACT.md as data, which the classifiers are compared with.
--   Client       declarant/pydeclarant/client.py: Client.declare as explicit state passing over a Gate,
--                a record of a POST and a feed GET on a state of the service. What the HTTP and JSON
--                libraries hand back is data: a status with a decoded body, or the exception raised.
--                Client/Reserves is what a client relies on in the gate: a granted key stays reserved.
--                Client/Poll is poll_achieved, over a service that pages its ACHIEVED records.
--   Gating       declarant/pydeclarant/gating.py: require_fresh_proceed, the refusal that the adapters
--                share.
--   Reporting    declarant/pydeclarant/reporting_adapter.py: the report identity and its canonical bytes,
--                the report key, gate_submission, gate_batch and reconcile. The caller's submit acts on a world of
--                its own and may raise; it does not itself raise the adapter's own exceptions.
--   Scorer       core/scorer/src/scorer: evaluate, the handler ml_evaluate, KeArtifactResolver
--                (Scorer/Resolver), and the start-up from the environment (Scorer/Startup: facts_from_env,
--                resolver_from_env, from_paths, create_app and main). Floats, json.loads, the files, the
--                artifact wheel and str.lower are parameters.
--   Verifier     verifier/pyverifier/verify.py: the hash encoding (Verifier/Encoding), verify_intent with
--                its checks in their order, parse_feed and verify (Verifier/Feed), and render and main
--                (Verifier/Main). json.loads and the reading of the file are parameters; a verdict's
--                reason is data that render prints.
--   Loop         treasury/randomized_loop.py: its classifier, and the oracle of the expected terminals
--                (Loop/Oracle) over a comparison of facts as a parameter, and the fault proxy's
--                handler (Loop/Proxy) in front of the scorer. Loop/Draws is a monad of random draws over a
--                generator that is a parameter; Loop/Worlds and Loop/Plan are sample_plan; Loop/Run
--                is the search for a plan in main and the comparison behind the run. The search has
--                as many rounds of fuel as attempts are allowed.
--   Client/Double is declarant/pydeclarant/_gate_double.py, the scripted gate of the tests.
--   Cdm          declarant/pydeclarant/cdm_adapter.py: identity_from_workflow_step, workflow_step_for
--                (Cdm/Emit) on decoded JSON (Json/Value), and gate_cdm_event (Cdm/Gate) over gate_submission.
--   Mcp          declarant/pydeclarant/mcp_adapter.py: references of a schema (Mcp/Schema: _resolve),
--                canonical arguments (Mcp/Canonical: _tier2_value, _tier2_object, _tier2_args) and the
--                gate call (Mcp/Call: _tier1_args, _canonical_args, _gate_call). The server's tools,
--                pydantic's model of a callable's fields, json.dumps and the operations on numbers are
--                parameters.
--   Skeptic      tic-concept-chat/skeptic.py: load_judgment_context, _tool_input, validate_claims and
--                validate_verdicts on decoded JSON; Skeptic/Locate is _locate and the windows around a
--                quote, on code points; Skeptic/Lanes is render_reply, doc_windows, extract_claims and
--                judge_claims; Skeptic/Models is tic-concept-chat/models.py.
--   Chat         tic-concept-chat/server.py: stream_reply and skeptic_pass as lists of events, over the
--                model's stream as a parameter; Chat/Protocol has the phases of such a list, and
--                Chat/Context is tic-concept-chat/context.py.
--   Langchain    declarant/pydeclarant/langchain_adapter.py: _jsonable, canonical_args and the function that
--                gate_tool wraps a tool in. The framework's validation and json.dumps are parameters.
--   Base         shared tests, texts, dictionaries and UTF-8.
--
-- The text of a class stands for its constant (Declare.class_name). Texts are lists of code points,
-- without the lone surrogates that Python's texts may hold, and fields of decoded JSON that the
-- code reads as texts are texts or absent. sha256 and the NFC normalisation are parameters, with
-- freedom from collisions as a hypothesis where it is needed. The nonce that a submission draws is
-- an argument. An artifact file that the resolver lists can be read, and json.loads ends with a
-- value or a decoding error, not at the limit of recursion. The claims that doc_windows is called
-- with have different ids, as validate_claims checks, so its dict is a list here. Loops are
-- structural recursion, but for the references of a schema, whose rounds are counted
-- (Mcp/Schema.rounds: two more than there are definitions), the search for a plan, which has the
-- attempts that it is allowed as its rounds, and the nesting of values, which ends at the depth at
-- which a call raises RecursionError.
--
-- Not modelled: the Go implementation; sockets, timeouts and redirects; the reading of a callable's
-- signature and pydantic's models; the processes, files and printed report of the randomized loop;
-- the scripts that drive a live deployment; and the endpoints, the page and the texts of the
-- prompts of the chat application.
pub mod Base
pub mod Json
pub mod Declare
pub mod Client
pub mod Gating
pub mod Reporting
pub mod Scorer
pub mod Verifier
pub mod Loop
pub mod Cdm
pub mod Mcp
pub mod Skeptic
pub mod Langchain
pub mod Chat
