-- ===== src/Kube.antt =====
-- The Kubernetes API as the operator sees it: its objects, its errors, and the client, which is a
-- parameter of the controllers and webhooks.
pub mod Objects
pub mod Errors
pub mod Client
