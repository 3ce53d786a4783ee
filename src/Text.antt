-- ===== src/Text.antt =====
-- Text on its way through the bridge: UTF-8 classification and the filter for ANSI escapes, both of
-- src/bridge.c.
pub mod Utf8
pub mod Ansi
