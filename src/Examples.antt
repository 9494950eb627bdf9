-- ===== src/Examples.antt =====
-- Concrete inputs, tests of the model on them, and the theorems at these inputs.
mod Inputs
mod Open
mod Witnesses
mod Requests
mod Platform
mod Reports
mod Clients
mod Binding
