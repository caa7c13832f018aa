-- ===== src/AccessPoints.antt =====
-- The access points of the gateway. `Contract` is what an access point promises its callers;
-- `Mock` is that of gateway/mock/mock_access_point.py, which `Mock.Refinement` shows to keep it.
pub mod Contract
pub mod Mock
pub mod Silabs
