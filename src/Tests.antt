-- ===== src/Tests.antt =====
-- Runs of the model and the theorems at concrete inputs.
mod Text
mod World
mod Requests
mod Sessions
mod Files
mod Net
mod Calls
mod Main
mod Confined
