-- ===== src/Lib.antt =====
-- IBVAP is a video analytics server: cameras are read into bounded frame queues, frames are detected and
-- tracked, rules on zones and tripwires raise events, plates and faces are confirmed over several frames,
-- and events go through an outbox to an alert workflow. This library models its core, one module for each
-- source file, and shows what makes each part correct.
--
-- CameraState     src/ibvap/core/camera_state.py: `CameraStateMachine`, its table of transitions, the
--                 bounded history, the epochs of the stream and the retry delay.
-- FrameQueue      src/ibvap/core/queue.py: `BoundedQueue`, which keeps the latest frames and drops stale
--                 ones; times in milliseconds.
-- Tracker         src/ibvap/core/tracker.py: `Track.record_biometric_match` (Latch, Lock, Precedence),
--                 `_sanitize_bbox` (Detections, Boxes) and `CentroidTracker.update`, stage by stage:
--                 Matching (stage 1; Greedy, Claimed, Maximal), Stages (stages 2 and 3), Update (purge,
--                 exclusive identities, visible tracks; Exclusive, Purge), Numbered and Ids.
-- Geometry        src/ibvap/core/geometry.py and src/ibvap/core/zone_engine.py: Segments, Polygons with the
--                 validation of fences, Letterbox, and Zones with `is_intrusion`.
-- Pipeline        src/ibvap/core/pipeline.py: the presence of tracks in a zone: alerts, latches and exits (Defs), and
--                 the loops on intrusions and on visibility together (Frames).
-- Rules           src/ibvap/core/rules.py: `RuleEngine`, with Tripwires, Stays and Loitering; it uses Geometry.
-- Anpr            src/ibvap/core/anpr.py: the votes of `ANPRPipeline`, scoped by the epoch of the stream (Defs,
--                 Windows, Majority, Eviction), and `SightingsStore` (Sightings, Store).
-- Outbox          src/ibvap/events/outbox.py: events and outbox entries with their indexes, bounds and
--                 deduplication.
-- Storage         src/ibvap/core/remote.py: storage pressure, the acceptance of uploads and the backlog.
-- Alerts          src/ibvap/core/alerts.py: the workflow of an alert and the registry.
-- Ssrf            src/ibvap/core/ssrf.py: the policy of URLs, DNS answers and their cache, redirects and the
--                 pinning of a stream to an address (Pinning, Bounds).
-- Dispatcher      src/ibvap/core/dispatcher.py: the settings file and the webhook; it uses Ssrf.
-- Handover        src/ibvap/core/handover.py: `HandoverEngine`, the dossiers and their maps.
-- Jail            src/ibvap/core/jail.py: the paths of uploads. Auth: src/ibvap/api/auth.py, the guard.
-- Watchlist       src/ibvap/core/watchlist.py: `WatchlistStore`, its file, plates and faces.
-- Workers         src/ibvap/services/stream_worker.py: the start and the stop of a camera's thread.
-- Ocr             src/ibvap/core/ocr_worker.py, and the drain of OCR results in
--                 src/ibvap/services/stream_worker.py.
-- Common          shared names: dictionaries in insertion order, lists, Boolean tests, and floats.
--
-- How the code is read. A dictionary is an association list in insertion order (Common/Dict); an object
-- that the code shares is known by its key or its address, so that a change through one reference is seen
-- through every other: a track by its key in the tracker, an event and an entry by addresses in the
-- outbox's store. Methods take the state and return the next one; those that hold a lock are single steps.
-- Errors are values of a result type. Clocks, uuid and random draws, str.upper and the formatting of keys
-- are arguments. Floating-point numbers are a parameter with the operations that the code uses
-- (Common/Float); a theorem that needs laws of them names these, and the others hold whatever the numbers
-- do. Common/Milli and Common/Shifted are instances for the tests. The libraries behind the code (urllib,
-- ipaddress, DNS, the HTTP opener, pathlib, hmac, uuid, base64) are parameters. All loops are structural
-- recursion on the list that the code goes through, so no fuel is needed; `check_http_redirect` recurs on
-- `3 - _depth`, as the code counts. Bounds such as 64 points, 6 matches, 10 reads and the limits of the
-- queues are those of the code.
--
-- Not modelled: capture, inference and image filters (PyAV, onnxruntime, OpenCV), the database, the HTTP
-- interface and the frontend, and the parts of the core that are not named above, among them the loop of
-- the stream worker, the inference and the faces of the pipeline, persistence, evidence, the association
-- of faces and vehicles, the model manager and night movement.
pub mod Alerts
pub mod Anpr
pub mod Auth
pub mod CameraState
pub mod Common
pub mod Dispatcher
pub mod FrameQueue
pub mod Geometry
pub mod Handover
pub mod Jail
pub mod Ocr
pub mod Outbox
pub mod Pipeline
pub mod Rules
pub mod Ssrf
pub mod Storage
pub mod Tracker
pub mod Watchlist
pub mod Workers
