-- ===== src/Recovery.antt =====
-- orchestration/dagster/commerce_dagster: from the facts of one partition to the decision whether
-- a recovery run may be launched, and the sensor that launches it.
pub mod Failure
pub mod Policy
pub mod State
pub mod Sensor
pub mod Tags
mod Tests
