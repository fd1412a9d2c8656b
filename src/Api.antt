-- ===== src/Api.antt =====
-- pkg/apis/migration/v1alpha1/types.go
mod Names
mod Request
mod Csi
mod Object
unfoldable pub use Names.*
pub use Request.*
pub use Csi.*
unfoldable pub use Object.*
