-- ===== src/Http.antt =====
-- internal/httpapi/handler.go: the HTTP interface of the repository. Text.antt has what it uses of
-- `strings`, `strconv` and `fmt`; Runs.antt is createRun and getRun, Events.antt is streamEvents.
pub mod Text
pub mod RoundTrip
pub mod Request
pub mod Runs
pub mod Isolation
pub mod Creation
pub mod Retry
pub mod Cursors
pub mod Frames
pub mod Available
pub mod Delivery
pub mod Ending
pub mod Events
