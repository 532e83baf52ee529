-- ===== src/Json/Termination.antt =====
-- src/json.c: every loop of `cm_json_decode` moves on, so that the model's fuel is enough.
pub mod Strings
pub mod Loop
