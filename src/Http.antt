-- ===== src/Http.antt =====
-- server/pkg/controller/http_task_controller.go and http_controller.go: the handlers of the HTTP server.
-- A handler is given what gin has read of the request, and the text that an error's method Error
-- gives (`error_text`). A parameter of the path is `none` where it is the empty text. Logging is left
-- out. What encoding/json writes is left out too: a list without a task is the nil slice.
pub mod Params
pub mod Reply
pub mod Tasks
pub mod Hosts
pub mod HostRoutes
pub mod Paging
pub mod Created
pub mod Verdicts
pub mod Grpc
pub mod Effects
