-- ===== src/Examples.antt =====
-- Concrete inputs for the theorems, over small stand-ins for the parameters of the model.
mod Stubs
mod Evaluation
mod Configuration
mod Hosts
mod Limits
mod Requests
mod Recompiling
mod Clients
