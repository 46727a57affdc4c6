-- ===== src/Domain.antt =====
-- internal/domain: the error values and the data that the layers exchange.
pub mod Errors
pub mod Generator
pub mod StatusText
