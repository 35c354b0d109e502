-- ===== src/Tests.antt =====
-- Concrete runs of the model, and the theorems at inputs that meet their hypotheses.
mod ConfigTests
mod StateTests
mod HealthTests
mod KeyTests
mod HandlerTests
mod RouterTests
mod WsTests
mod AdminTests
mod RotationTests
mod ServerTests
mod ServiceTests
mod FloodTests
mod ReportTests
mod ConcurrentTests
mod WindowTests
mod RevocationTests
