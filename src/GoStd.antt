-- ===== src/GoStd.antt =====
-- What the program uses of Go's standard library, as far as it is computed here.
pub mod Strings
pub mod Sort
pub mod Ip
pub mod ParseIp
pub mod ParseCidr
pub mod Atoi
pub mod Rfc3339
