-- ===== src/Client.antt =====
-- controller-runtime and the API server, as the controllers use them: the operations are in
-- `Client.Defs`, and the documented behaviour that theorems take as a hypothesis in `Client.Laws`
-- and `Client.Store`.
pub mod Defs
pub mod Laws
pub mod Store
pub use Defs.{Client}
