-- ===== src/Text.antt =====
-- Text for the displays (src/logic/utf8_text_logic.h, src/logic/wrap_text_logic.h).
pub mod Utf8
pub mod Wrap
