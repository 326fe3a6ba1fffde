-- ===== src/Tests.antt =====
-- Concrete runs of the code of vm/, and the theorems at concrete inputs.
pub mod Setup
mod Compiled
mod Images
mod Runs
mod Machines
mod Safe
mod Mirror
mod Regions
mod Words
