-- ===== src/Api.antt =====
-- internal/api/v1: the handlers of the HTTP interface.
pub mod Paging
pub mod Schedules
