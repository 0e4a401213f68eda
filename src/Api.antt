-- ===== src/Api.antt =====
-- api/v1alpha1: the custom resources and the parts of the Kubernetes objects that the controllers
-- read or write, as records.
pub mod Meta
pub mod Config
pub mod Session
pub mod Text
pub mod Pod
pub mod Objects
pub mod Types
