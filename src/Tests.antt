-- ===== src/Tests.antt =====
-- Concrete runs of the model, and the theorems at inputs that meet their hypotheses.
mod Structures
mod Messages
mod System
mod Removal
mod Gui
mod Parts
mod Protocol
mod Network
