-- ===== src/Tests.antt =====
-- Test data, and the theorems at concrete inputs.
mod Demo
mod ContextTests
mod RequestTests
mod InstallTests
mod JobsTests
mod LinkTests
mod PatchTests
mod SubscriptionTests
mod Uf2Tests
mod UploadTests
