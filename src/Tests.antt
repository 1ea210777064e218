-- ===== src/Tests.antt =====
-- Concrete runs of the modelled code, and the theorems at concrete inputs.
mod Samples
mod Groups
mod Ring
mod Training
mod Racing
mod Shelf
mod Handing
mod Measuring
mod Arriving
mod Starting
mod Benchmark
mod Turn
mod Table
mod Preempting
