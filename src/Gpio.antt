-- ===== src/Gpio.antt =====
-- internal/services/gpio: the configured pins, the shared records of their state and the interrupts.
pub mod Types
pub mod Service
pub mod Maps
pub mod Sharing
pub mod Effects
pub mod SafeMode
pub mod Debounce
mod Examples
