-- ===== src/Json/RoundTrip.antt =====
-- src/json.c: what `cm_json_encode` writes is read back by `cm_json_decode`.
pub mod Loop
pub mod Leaves
pub mod Aggregates
pub mod Plain
pub mod Parts
pub mod Whole
