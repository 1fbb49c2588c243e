-- ===== src/Knowledge.antt =====
-- packages/knowledge-toolchain/src: knowledge packages.
pub mod Identity
