-- ===== src/Tests.antt =====
-- Concrete runs of the modelled code, each theorem at one of them.
mod Fixtures
mod Capabilities
mod Tools
mod Knowledge
mod Leave
mod Orchestration
mod Application
mod Indexing
mod Runtime
