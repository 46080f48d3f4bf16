-- ===== src/Lib.antt =====
-- Verification of the WhatsApp sales agent for detergents (Python, `app/`).
--
-- The program takes orders in a conversation: a catalog of products, a cart and the customer's
-- details in a session, a quotation that is previewed, confirmed and generated as a PDF, and the
-- processing of each inbound message by a record in Redis of how far it has come.
--
-- Prelude: the names that the files share; Boolean tests, lists, integers, and Python's `str` as
-- the list of its code points (`codes` of a literal, `strip`, `is_blank`).
-- Exec: `Result` for functions that may raise, `Exec` for methods that change an object and may
-- raise; what was written before an exception stays written.
-- Errors: app/core/exceptions.py, beside the exceptions of Python's library that the code raises, which
-- have no public payload. Errors/Public: what a client learns of an application error.
-- Decimal: `decimal.Decimal` in the default context, 28 digits, and `money`. Decimal/Rounding and
-- Decimal/Money: when the context rounds, and the bounds of `money`. The fuel of `excess`, which
-- counts digits, is the number itself, and a number has no more digits than its value.
-- Schemas: app/schemas/product.py, quotation.py, quotation_rules.py and session.py. An amount of
-- money is a number of cents, a moment a number of seconds, an ID a text.
-- Catalog: `ProductRepository` of app/repositories/product_repository.py. Catalog/Index: its
-- lookups.
-- Calculator: `QuotationCalculator` of app/services/quotation_calculator.py. Calculator/Lines,
-- Totals and Succeeds: the lines, the totals, and when there are totals.
-- Quotation: `QuotationService` of app/services/quotation_service.py. Cart: `add_item` to
-- `clear_cart`; Customer: `set_customer_information`; Preview: `prepare_quotation` and
-- `mark_ready_for_confirmation`; Confirm: `confirm` and `validate_generation_authorization`;
-- Generate: `generate`. Outcomes, Replay, Revocation, Flow, Edits and Cart/View have the proofs.
-- Dedup: app/services/message_deduplication_service.py. Validation: the validators of a record;
-- Scripts: the Lua scripts; Operations: the transitions; Methods: the methods, first with validated
-- identifiers (`claim_message`, `renew_claim`, `mutate_owned`) and then with their checks (`run_claim`,
-- `run_renewal`, `run_operation`). Expiry: the key of a record, which each `SET ... EX` of a script
-- keeps for the TTL of its stage, and which is gone after that; the model counts how often a record has
-- expired. Exclusion, Refusals, Writes, Claims, Transitions, Progress, Completion, Availability,
-- Identifiers, Validated and History have the proofs; History runs several workers as a step relation,
-- in which time passes and the record expires.
-- Webhook: app/services/whatsapp_webhook_security.py. Webhook/Security has the proofs.
-- Json: the JSON values of Python.
-- Parser: app/services/whatsapp_parser.py, over app/schemas/whatsapp.py. Message: `_parse_message`;
-- Event: `_parse_change`, `_parse_entry` and `parse_whatsapp_webhook`. Steps, Valid, Nodes, Outcomes
-- and Siblings have the proofs.
-- Session: app/services/session_service.py. Identity: `normalize_customer_identity`; Service:
-- `SessionService`. Canonical, Saving and Saved have the proofs.
-- Client: app/services/whatsapp_service.py. Split: `split_text_message`, whose loop runs on fuel, one
-- round for each character of the text, which is enough because each round but the last cuts off at
-- least one character; Sending: `send_text`; Documents: `upload_document` and `send_document`.
-- Boundary, Rounds, Parts, Loop, Delivery and Refused have the proofs.
-- Coordinator: `WhatsAppProcessingCoordinator` of app/services/whatsapp_processing_coordinator.py.
-- Actions: the calls of the store, the heartbeat and the external actions; Process:
-- `process_outcome`; Inbox: `process_webhook`. BegunRecord, Begun, Calls, Perform, Deliveries and
-- AtMostOnce have the proofs. The model counts the calls of other programs and keeps a trace of them.
-- Each call of the store finds the key as it is at the time of the call, expired or not.
-- A run is one sequence of calls, several runs for a message follow each other, and an operation of
-- a run finds the record that it has read still stored when it writes.
-- Tests: concrete data, and the theorems at that data.
--
-- The calculator and the services call the catalog by `get_by_id`; the quotation service calls the
-- calculator for each preview, and binds a preview by the fingerprint of the quotation's inputs. The
-- parser's outcomes go to the coordinator, which calls the deduplication service, the conversation
-- and the client; the client normalizes identities by the session service.
--
-- Parameters of the model are the SHA-256 digest of a quotation, the HMAC of a payload, the
-- interpreter of confirmations, the clock, the factory of quotation IDs, the PDF service,
-- `str.casefold`, `str.isprintable` and `repr`, the combining classes of `unicodedata`, the HTTP
-- client, the models' own reading and writing of JSON, and for the coordinator the conversation and
-- the transport, whose answers depend on the number of the call. The clock, the factory and the PDF
-- service stand for the one call that an operation makes of each.
--
-- Not modelled: the files and Redis themselves (a stored record stands for its JSON text, and of Redis
-- only the expiry of a key that was set with `EX` is kept), HTTP itself and the routes, the turn of a
-- conversation, the language model and its tools, the search of products, the texts of previews,
-- configuration and logging.
pub mod Prelude
pub mod Errors
pub mod Exec
pub mod Decimal
pub mod Schemas
pub mod Catalog
pub mod Calculator
pub mod Quotation
pub mod Dedup
pub mod Webhook
pub mod Json
pub mod Parser
pub mod Session
pub mod Client
pub mod Coordinator
pub mod Tests
