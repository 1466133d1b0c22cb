-- ===== src/St.antt =====
-- st/st.c, the terminal emulator.
pub mod Utf8
pub mod Base64
pub mod Term
pub mod Cursor
pub mod Select
pub mod Clear
pub mod Scroll
pub mod Edit
pub mod Sgr
pub mod Modes
pub mod Csi
pub mod Print
pub mod Str
pub mod Control
pub mod Handle
pub mod Put
pub mod Resize
mod Tests
