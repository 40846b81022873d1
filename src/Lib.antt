-- ===== src/Lib.antt =====
-- A verification library for the diary memory service: a Telegram bot that stores diary notes and
-- answers questions about them.
--
-- The parts, with the code they are about:
-- - Models: src/memory_rag/core/domain/models.py, core/routing/models.py, core/embeddings/models.py,
--   core/chat/models.py. Text is a list of code points, a datetime a number of microseconds since
--   1970, a float the bits of a double. Models/Calendar has the ISO texts of dates and times.
-- - Parser: core/domain/parser.py, from a note's text to its date and body.
-- - Store: storage/mock/store.py, the in-memory store. Its record has a dictionary for each of the
--   fields of `MockDomainStore`; every method is a function of the store that returns or raises,
--   beside the store it leaves (Exec). Store/Removal has the hard deletion.
-- - DomainService: services/domain_service.py, `ingest`, `_embed_chunks`, `_reconstruct_result`, the
--   two deletions and the recent drafts. The clock and `uuid4` are arguments (Draws), the provider
--   is a record.
-- - Answers: core/domain/answer_prompt.py and core/domain/answer_schema.py, the prompt and the
--   parser of the provider's answer.
-- - Retrieval: services/retrieval.py and services/context_assembler.py, rank fusion and its trace.
-- - QueryService: services/query_service.py, `retrieve` and `answer`, over the same store, as the
--   in-memory application has them.
-- - Commands: adapters/telegram/commands.py and core/routing/classifier.py.
-- - Reconciliation: services/reconciliation.py, the discovery and the retry of failed embeddings.
-- - Packing: adapters/telegram/drafts_packing.py, which cuts a reply into messages.
-- - Resilience: adapters/resilience.py, the bounded retries around the providers.
-- - Export: core/export and services/export_service.py, the JSON and the plain text of the raw
--   messages and their UTF-8 bytes.
-- - RoutedChat: services/routed_chat.py with the prompts, the parsers and the interfaces of core/chat,
--   a question that a classifier sends to one of four pipelines, and the rows that record it. The
--   classifier, the rewriters and the knowledge source are functions that return or fail.
-- - Adapters: adapters/answers, adapters/embeddings, adapters/chat_routing and adapters/knowledge, the
--   OpenAI and Tavily adapters that fill those interfaces under the retries of Resilience, and the
--   deterministic ones. The SDKs are functions from a request and the number of an attempt.
-- - Boot: the factories, config.py and app.py, the gates that a boot passes.
-- - Dispatcher: services/dispatcher.py, the route of a message to its service, the replies, and the
--   cache behind `/sources`, which stands beside the store in its state.
-- - Telegram: adapters/telegram/webhook.py, author_display.py, models.py, community.py, subject.py
--   and reply.py, one update from the check of the secret to the calls of the Telegram client. The
--   client is a function of the number of the call and its arguments, which returns or raises.
-- - Exec/Invariants, DomainService/Writes, QueryService/Writes, RoutedChat/Writes and
--   Dispatcher/Stored carry an invariant of the store from its single writes to a whole dispatch.
-- - DomainService/Delivered has the stores that the calls of the service lead to; Store/Active and
--   DomainService/Ingest (Prior, Single, Revised, Active, Latest) follow a message's current note.
-- - Reconciliation/Groups, Embedded and Kept follow the chunks of a retry run to what it leaves.
-- - Base has the shared helpers, Running a name that unfolds what a run needs, Samples the test data.
--
-- An update goes through Telegram and Commands to a message with a route, and that to Dispatcher;
-- notes and drafts go on to DomainService, which writes the store, and questions to QueryService,
-- which reads the two search legs of the store, fuses them and writes the trace, or to RoutedChat,
-- which uses that retrieval. The result goes back to Telegram, which renders and packs it.
--
-- Parameters of the model: the arithmetic of doubles, Unicode's lower case and word characters,
-- `date.fromisoformat`, `int` of a text, `json.loads` (which decodes, raises JSONDecodeError, or
-- raises another exception that the program does not catch), the providers, and the exceptions of their
-- SDKs.
-- The loop that counts the parts of a block runs on fuel, as many rounds as the block has
-- characters: while it goes on, a part has room for a character, so that there are fewer parts than
-- characters. The other loops are structural.
-- Not modelled: SQL stores, the HTTP server and the Telegram client, logging, the reading of the
-- environment, the evaluation harness.
pub mod Base
pub mod Exec
pub mod Models
pub mod Store
pub mod Parser
pub mod DomainService
pub mod Answers
pub mod Retrieval
pub mod QueryService
pub mod Commands
pub mod Reconciliation
pub mod Packing
pub mod Resilience
pub mod Export
pub mod RoutedChat
pub mod Adapters
pub mod Boot
pub mod Dispatcher
pub mod Telegram
pub mod Running
pub mod Samples
pub mod Tests
