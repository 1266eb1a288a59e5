-- ===== src/Lib.antt =====
-- The notification core of UnixNotis: its daemon, and the logic of its clients.
--
-- UnixNotis is a notification daemon for Wayland with a popup client and a notification centre. This
-- library models the daemon's core as functions on explicit states: the store that every D-Bus
-- call works on under one lock, what the Notify call and the expiration scheduler do to it, and
-- the limit on signals that one sender may cause. Of the clients it models what is not drawing: the
-- popup list, the rows of the centre, the queues of widget commands, and the delays of retries.
--
-- The parts, and the code they are about (D is crates/unixnotis-daemon/src, K is
-- crates/unixnotis-core/src):
--   Prelude: shared names, lists, maps as association lists, integers, Boolean tests.
--   Model, Model.Control: K/model/notification.rs, types.rs, image.rs (records) and K/control.rs
--     (the popup gate popup_allowed_by_state and should_archive_closed_notification).
--   Model.Image: the bounds check normalized_rowstride of K/model/image.rs.
--   Config: the part of K/config that the store reads, and sanitize_history.
--   History: D/store/store_history.rs (HistoryStore), an association list and the order of its ids.
--     Bounds, Valid, Recency and Eviction relate it to the list of entries, oldest first.
--   Rules: D/store/store_rules.rs (apply_rules, rule_matches, apply_rule, contains_ci).
--   Store: D/store.rs and store/store_state.rs (NotificationStore, do-not-disturb, queries);
--     Store.Inhibit: store_inhibit.rs and store_inhibitor_api.rs; Store.Identity: store_identity.rs;
--     Store.Lifecycle: store_lifecycle.rs (insert is insert_notification, by the branches
--     insert_dropped and insert_kept; the other operations keep their names);
--     Store.Dnd: D/daemon/control/dnd.rs (finalize_dnd_write).
--   Daemon.Notify: D/daemon/notifications.rs (the part of notify under the lock) and
--     notifications/payload.rs (resolve_expiration); Daemon.Payload: truncate_utf8_bytes of the
--     same file; Daemon.Burst: D/daemon/signal_burst.rs;
--     Daemon.Expire: D/expire.rs; Daemon.Reachable: the steps of all of these on one store, and
--     the states they reach (Daemon.Frames: what each step leaves alone), in any interleaving of the daemon's tasks.
--     Daemon.Control: D/daemon/control/inhibit.rs and sanitize.rs; Daemon.Announce: what
--     D/daemon.rs (emit_state_changed) tells listeners.
--   Model.Pixels: the normalisation of raw images of K/model/image.rs, with its SSSE3 row routine;
--     Model.Same: the derived equality of notification views.
--   Popups: crates/unixnotis-popups/src/ui/ui_popups (mod.rs, reconcile.rs, visibility.rs);
--     Popups.Restack: visible_popup_restack_ids and the widget stack that apply_visible_popups
--     reorders.
--   Center: crates/unixnotis-center/src/ui/list (list_blocks.rs, the splice of list_update.rs);
--     Center.Index: list_index.rs.
--   Commands: crates/unixnotis-center/src/ui/widgets/utils/command (mod.rs); Commands.Coalesced,
--     Commands.Drain (its drain thread), Commands.Delayed, Commands.Dispatch: its command_queue/
--     (coalesced.rs, delayed.rs, mod.rs).
--   Texts: the sanitizers of K/util.rs.
--   Retry: the dbus_backoff.rs of both clients and RestartBackoff of D/child_process/mod.rs;
--     Retry.Refresh: ui/widgets/utils/refresh_backoff.rs of the centre.
--   Examples: concrete states and the tests.
--
-- How code becomes a model. `&mut self` is a state passed and returned. A HashMap or IndexMap is an
-- association list; the one place where the code reads a hash map's iteration order is the recovery
-- in evict_to_limit, which takes the order as listed. Strings are lists of UTF-8 bytes. Instants
-- are numbers, and `now` is an argument. u16, u32 and u64 are natural numbers with their wrapping or
-- saturation written out; i32 and i64 are integers with their clamping written out. A D-Bus variant
-- is a type parameter H. Reading the persisted state enters as its result (Loaded), and writing it
-- as whether it succeeded.
--
-- Loops. evict_loop runs on fuel of one round for each id of the order and each entry and two more,
-- and search_id on the attempts that the code itself allows; both are enough, as evict_to_limit-le
-- and next_id-fresh show; simd_loop of Model.Pixels runs on the length of the row, each round taking
-- twelve bytes. All other loops are structural.
--
-- Not modelled: D-Bus transport, signals and authorization, sound playback, process and file
-- handling, the decoding of D-Bus variants, the channel of the scheduler, CSS and themes, the command
-- line client, the installer, and the widgets of the clients. Threads of the clients enter as steps
-- on the state that they share.
mod Prelude
pub mod Model
pub mod Config
pub mod History
pub mod Rules
pub mod Store
pub mod Daemon
pub mod Popups
pub mod Retry
pub mod Commands
pub mod Texts
pub mod Center
pub mod Examples
