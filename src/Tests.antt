-- ===== src/Tests.antt =====
-- Runs of the model on concrete inputs, and each theorem at an input that meets its hypotheses.
mod Macros
mod Sim
mod Aig
mod Script
mod Staging
mod Waves
mod Aigpdk
mod Phase
mod Flatten
mod Boomerang
mod Reduce
