-- ===== src/Lib.antt =====
-- A verification library for the backend of Real-Time AI Call Audit (the Python package app/).
--
-- Recordings of calls are taken in, queued as jobs, transcribed, redacted and analysed by workers;
-- each change of a call is announced on a stream of events per organisation, which clients resume
-- from a cursor. The database's statements are modelled as functions on tables (lists of rows), a
-- transaction is one function, and an exception is a value that leaves the tables as they were.
--
-- Which file is about which part:
--   * Prelude: Boolean tests, lists over the native numbers, sorting, texts.
--   * Store: the rows of the tables that the parts share; the outcome of a fallible call.
--   * Auth: app/auth.py, `Scope` and `can_access`; Auth/Identity: `resolve_identity_from_db`.
--   * Events: app/events.py. `append_call_updated` (its number is of the row it bumps),
--     `purge_call_events`, `read_events` and `parse_last_event_id` are functions of these names.
--     Stream, Retained, Purge, Gaps, History and Reading hold the proofs.
--   * Jobs: app/ingest.py, the queue: `claim_job`, `defer_job`, `renew_job`, `retry_job`, and
--     `finish_lease`, the first two statements of `finish_job`. It announces calls through Events.
--   * WordAlignment: app/transcript_verification.py. `align_words`, `word_error_rate` and
--     `compare_transcript` are functions of these names, over words of characters.
--   * Intervals: intervals and the loop that merges them, shared by the next two.
--   * Redaction: app/privacy.py, `redact_text` over the spans that the recognisers find.
--   * Policy: app/compliance.py. Its own file has the holds and `_opening_deadline`, Phrases
--     `_phrase_evidence`, Rules `disclosure_state` and `evaluate_rules`, Compile `compile_ruleset`,
--     Advisory `scan_sensitive_numbers`; Holds, Evidence, Verdicts and WellFormed hold proofs.
--   * Exotel: app/exotel.py. `accept` is composed of one function per kind of event; Values holds
--     the JSON values, Steps the state machine, Ledger the accounts of a run.
--   * LiveCalls: app/live_calls.py, the rows of live sessions: `activate_exotel_session`,
--     `update_exotel_session` and `recover_stale_exotel_sessions`. Keys has the lemmas on the
--     rows' keys, Generations each operation's lemma, Fencing the runs.
--   * Disposition: app/disposition.py. Rules is the resolver (`resolve_disposition`, `_predicate`,
--     `_rule_confidence`), Turns `_group_speaker_turns` and `_windows` (`make_windows`), Classify
--     `_validated_signals`, `_aggregate` and `classify_disposition`; the other children hold proofs.
--     Floating-point numbers and the local model are parameters.
--   * Transcription: app/transcription.py, `normalise_segments` and `prepare_utterances`; Live is
--     `LiveWindowTranscriber`, Buffer and Prepared hold proofs. The speech model is a parameter.
--   * Sentiment: app/sentiment.py; Alerts holds the proofs of `sentiment_alert_times`.
--   * Retention: app/retention.py, `request_call_deletion`, `tombstone_expired_calls` and `purge_call`,
--     which calls the purge of Events; Batch and Purged hold proofs.
--
-- Time is a number that the caller gives; a fresh token is an argument. Rows that other transactions
-- hold (SKIP LOCKED) are a predicate. Loops are recursions on lists, but for the
-- loop over the windows of a live transcriber: its fuel is the number of buffered bytes, and each turn
-- takes some of them. Text
-- classes and the lower case of Unicode are parameters of the functions that use them.
--
-- Not modelled: I/O (files, HTTP, the models), the SQL schema and the browser's client; of the
-- backend, the parts that the list above does not name.
pub mod Prelude
pub mod Store
pub mod Auth
pub mod Events
pub mod WordAlignment
pub mod Jobs
pub mod Intervals
pub mod Redaction
pub mod Policy
pub mod Exotel
pub mod LiveCalls
pub mod Disposition
pub mod Transcription
pub mod Sentiment
pub mod Retention
