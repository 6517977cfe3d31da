-- ===== src/Tests.antt =====
-- Evaluations of the model on concrete inputs, and instances of the main theorems.
mod Shell
mod Runtime
mod Server
mod History
mod Edit
mod Pipeline
mod Permissions
mod JobStore
mod GitGuard
