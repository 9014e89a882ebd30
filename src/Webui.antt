-- ===== src/Webui.antt =====
-- internal/webui: the checks in front of the local web interface.
pub mod Security
