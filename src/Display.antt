-- ===== src/Display.antt =====
-- internal/services/display: the buffer of pixels that is drawn in, and what is shown of it.
pub mod Colour
pub mod Buffer
pub mod Plot
pub mod Paint
mod Examples
