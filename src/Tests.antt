-- ===== src/Tests.antt =====
-- The theorems at concrete inputs.
mod InitOrderTests
mod ProberTests
mod DatabaseTests
mod ScalingTests
mod ResourceTests
mod AdminTests
mod PolicyTests
mod CqlTests
mod ControllerTests
