-- ===== src/Tests.antt =====
-- Concrete parameters, tests on concrete inputs and instances of the theorems.
mod SpoolModel
mod SpoolRuns
mod XrayModel
mod XrayRuns
mod AccessRuns
mod ReleaseRuns
mod BinaryModel
mod BinaryRuns
mod UpdateRuns
mod AgentRuns
mod ConfigRuns
mod RetentionRuns
mod CounterRuns
mod ReleaseOffers
