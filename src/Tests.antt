-- ===== src/Tests.antt =====
-- Runs of the models at concrete inputs, and the theorems applied there.
mod CbufTests
mod TextTests
mod TelnetTests
mod HealthTests
mod Level3Tests
mod ModemTests
mod ConfigTests
mod FilterTests
mod HayesTests
mod ScheduleTests
