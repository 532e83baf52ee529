-- ===== src/Json.antt =====
-- src/json.c: values, their text, and the reader of that text. A text is a list of bytes without the
-- terminating NUL. What a pointer may be NULL for is a `Ref`.
pub mod Values
pub mod Utf
pub mod Strings
pub mod Numbers
pub mod Encode
pub mod Decode
pub mod RoundTrip
pub mod Termination
pub mod Find
