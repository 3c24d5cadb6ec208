-- ===== src/Chart.antt =====
-- unrender/schema: the data of a chart as JSON, its validation, and its export.
pub mod Repair
pub mod Json
pub mod Data
pub mod Parse
pub mod Csv
