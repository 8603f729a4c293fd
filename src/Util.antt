-- ===== src/Util.antt =====
-- The package util: addresses, intervals and dynamic options. util/json.go only calls the JSON
-- library.
pub mod Net
pub mod Interval
pub mod DynamicMap
