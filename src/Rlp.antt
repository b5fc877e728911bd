-- ===== src/Rlp.antt =====
-- The package rlp: the recursive length prefix encoding.
pub mod Types
pub mod Head
pub mod Raw
pub mod Buffer
pub mod Writer
pub mod Item
pub mod Stream
