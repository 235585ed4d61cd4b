-- ===== src/Lib.antt =====
-- A model of the core of a Home Assistant integration for WhatsApp over WAHA, and the theorems that
-- make it correct.
--
-- The integration sends messages and polls through a WAHA server and receives webhooks from it. The
-- parts that are modelled:
--
-- * Correlated sends, `custom_components/waha_whatsapp/correlated.py`. A caller names each send by a
--   conversation and a client request id. `CorrelatedSendManager` writes the intent to a durable
--   ledger before the send, records the outcome after it, and answers a repeated request from the
--   ledger. The files under Correlated:
--     Types     records, the manager's state, constants; `is_owner` is the writer-slot test,
--               `active` the number of admitted sends and `drained` the event of `async_stop`
--     Media     `_valid_media_binding`
--     Outcome   `_outcome`, the `except` clauses of `_async_execute_admitted`, `_response`
--     Ledger    `_prune`, `_snapshot`, `_storage_size`, `_fits`, `owns_request`, `media_binding`,
--               `diagnostics`
--     Claim     `async_execute` up to the send: checks, replay, restaging of media, the intent
--     Finish    the end of a send: `_finish` and the `finally` of `async_execute`
--     Start     `async_start` with `_restore`, and `async_stop`
--     System    a manager with its sends in flight, and the steps that interleave
--   and the proofs on them: Retention, Fence, Admission, Coverage, InFlight, Interleaving, AtMostOnce,
--   Replay, Restart.
--
-- * Polls, `custom_components/waha_whatsapp/polls.py`. `PollRegistry` holds the polls that wait for
--   a vote. A webhook's vote is parsed, its WhatsApp identities are resolved, and the newest vote of
--   a poll settles after a time; application polls leave a receipt in a journal that clients read in
--   pages. The files under Polls:
--     Identity  `canonical_message_id`, `_same_chat_id`, `_direct_phone_chat_id`, LIDs
--     Timestamp `normalize_vote_timestamp`, `valid_settle_timestamp`
--     Types     options, votes, polls, the registry
--     Build     `build_poll_options`
--     Vote      `parse_poll_vote_with_reason`, `resolve_vote_lids`
--     Receipts  the journal: `remember_selection`, `selections`
--     Registry  `register`, `apply_vote_with_reason`, `commit`, `restore_uncommitted`
--     Storage   `PendingPoll.as_dict` and `from_dict`
--     Load      `PollRegistry.load`, with the exceptions that stop it
--   and the proofs on them: Invariant, Settlement, Journal, Paging, RoundTrip, Restored, Options.
--
-- * Slash commands, `custom_components/waha_whatsapp/commands.py`. `CommandRegistry` keeps the
--   commands that an administrator declares, and turns an allowed sender's direct message into a
--   request event. The files under Commands:
--     Definition `_name`, `_definition`, `CommandDefinition.as_storage`
--     Registry   `async_start`, `list_commands`, `async_register`, `async_unregister`, `_save`
--     Publish    `publish_from_message`
--   and the proofs on them: Unambiguous, Loaded, Gate, RoundTrip, Declared.
--
-- * The managed guest group, `custom_components/waha_whatsapp/guest_registry.py`. `GuestRegistry`
--   keeps one WhatsApp group of a bound bot account: who its participants are, under which aliases,
--   and the memberships that give a route to each of them. A roster that was read from WAHA replaces
--   what is known; only a registry that such a roster has confirmed answers routes. The files under
--   Guests:
--     Identity  `_jid`, `_opaque`, `_id`; the n-th `uuid4().hex` of the process is `uuid n`
--     Types     the data of `_empty`, the registry, `MembershipChange`
--     Provision `async_start`, `async_initialize_empty`, `_save`, `async_bind_account`,
--               `async_set_group` and the other steps of the provisioning, `suspend`
--     Roster    `_alias_owner`, `_member`, `_resolve_identity`, `_prune`
--     Hints     the event hints of `async_reconcile`, and `provenance`
--     Reconcile `async_reconcile`: the loop over the roster, the closing of memberships
--     Load      `_timestamp`, `_validate`
--     Routes    `resolve_member`, `resolve_route`, `resolve_group_conversation`,
--               `async_with_route`, `snapshot`
--     Life      a registry with its store: every call, restarts, and saves that fail or are
--               cancelled after they have written or before
--   and the proofs on them: Sets, Aliases, Members, Book, Rows, Linked, Turns, Growth, Admission,
--   Departures, Retention, Matching, Completion, Loaded, Validated, Gate, Evolution, Permanence, Lifetime. The calls under
--   the registry's lock run one after the other, and what the loader gives is what the store holds.
--
-- * General groups, `custom_components/waha_whatsapp/general_groups.py`. `GeneralGroupManager` sends to
--   groups that are configured one by one, after it has read the group's roster again. The files under
--   Groups:
--     Identity  `normalize_group_id`, `group_id_matches`, `participant_alias`
--     Routes    `_destination`, `resolve_subentry`, `resolve_conversation`
--     Review    `async_review`, `async_verify`, `async_send_text` up to the send
--   and the proofs on them: Roster, Verified. What WAHA answers, and the subentries and the guest
--   group before and after the roster was read, are inputs; `opaque_id` of the channel registry is a parameter.
--
-- * Administrators of guest groups, `custom_components/waha_whatsapp/guest_admins.py`: which Home
--   Assistant administrators have one WhatsApp contact. Admins/Preview models
--   `async_guest_admin_preview`, and Admins/Distinct has the proofs. It reads recipients by Helpers,
--   which models `helpers.py` and `migration.py` of the same folder, with proofs in Recipients.
--
-- Base, Dict, Json, Text and Store are shared: Boolean tests, lists and integers over native numbers;
-- Python dictionaries as association lists in the order of insertion; JSON values; the string
-- methods and small regular expressions of the source, read character by character; and how the
-- calls of a private store end.
--
-- Conventions. Stateful methods take the state and return the new one. A call of the store is given
-- its result (saved, failed, cancelled) and the model gives back what was handed to it to write. The
-- clock's readings are arguments. Instants and durations are whole microseconds, and a float is a
-- whole number of millionths, an infinity or not a number; so the rounding of a vote's time is exact
-- but for the division of milliseconds, which rounds ties to even. All loops are structural
-- recursion, so there is no fuel.
--
-- Parameters. `json.dumps` and SHA-256 are not part of the repository: `Config` holds the size and
-- the digest of a value's encoding; `shlex.split` is an argument of the publication of a command;
-- `opaque_id` names the conversations of general groups. No theorem assumes anything of these. Of
-- `uuid`, the hex digits of the n-th `uuid4`, some assume that it gives no value twice.
--
-- Where the ledger of correlated sends cannot be encoded, `_fits` raises; the model takes such a
-- ledger not to fit.
--
-- Not modelled: file input and output, Home Assistant, HTTP and the HMAC of webhooks; and the
-- integration's other parts (poll manager, channels, messages of groups, media, services, forms) and
-- the WAHA add-on.
pub mod Base
pub mod Dict
pub mod Json
pub mod Store
pub mod Commands
pub mod Helpers
pub mod Recipients
pub mod Admins
pub mod Groups
pub mod Guests
pub mod Text
pub mod Correlated
pub mod Polls
