-- ===== src/Codec.antt =====
-- What the two codec directions promise to one another: the reader returns what the writer stored.
pub mod BitFields
pub mod Words
pub mod Containers
