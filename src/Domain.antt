-- ===== src/Domain.antt =====
-- The domain vocabulary, src/versarr/domain: enumerations, entities, reason codes and exceptions.
mod Enums
mod Errors
mod Entities
unfoldable pub use Enums.*
unfoldable pub use Errors.*
unfoldable pub use Entities.*
