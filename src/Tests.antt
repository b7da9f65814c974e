-- ===== src/Tests.antt =====
-- Runs of the definitions on small inputs, and the theorems at inputs that meet their hypotheses.
mod Reader
mod SectorCases
mod CardCases
mod Desks
mod ModeCases
mod ClassicCases
mod CreditCases
mod VisitCases
mod LeavingCases
mod TagCases
mod DriverCases
mod ScreenCases
mod StartCases
