-- ===== src/Tests.antt =====
-- Runs of the model on small inputs.
mod Data
mod Documents
mod Routes
mod Logins
mod Plugs
mod Codec
mod Switches
mod Hooks
mod Starts
mod Commands
