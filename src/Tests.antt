-- ===== src/Tests.antt =====
-- Runs of the models on concrete inputs.
mod Fixtures
mod Layouts
mod Storing
mod Downloading
mod Retrying
mod Serving
mod Configuring
mod Living
mod Discovering
mod Observing
mod Sealing
mod Applying
mod Reconnecting
mod Browsing
