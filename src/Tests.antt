-- ===== src/Tests.antt =====
-- Runs of the modelled code on small inputs, and the properties applied to them.
mod Samples
mod Pipeline
mod Control
mod Parsers
mod Auth
mod Intake
mod Mailbox
mod Web
mod Views
mod Figures
mod Whole
