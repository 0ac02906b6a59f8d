-- ===== src/Tests.antt =====
-- Tests of the model on concrete data, and the theorems at inputs that meet their hypotheses.
mod Samples
mod SystemTests
mod RaceTests
mod ViewTests
mod FlowTests
mod PageTests
mod UiTests
mod FormTests
mod OpeningTests
