-- ===== src/Assets.antt =====
-- internal/assets: the registry of tokens, read from a file and indexed by network, chain,
-- symbol and address.
pub mod Token
pub mod Loader
pub mod Valid
pub mod Provider
pub mod Index
pub mod Tests
