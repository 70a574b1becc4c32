-- ===== src/Examples.antt =====
-- Concrete runs of the theorems, and the data they are run on.
pub mod Data
mod Buffers
mod Texts
mod Lines
mod Fields
mod Bodies
mod Connections
mod Pages
mod Configs
mod Handling
mod Loops
