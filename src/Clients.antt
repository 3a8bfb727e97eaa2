-- ===== src/Clients.antt =====
-- app/clients: the services that the application calls.
pub mod Redis
pub mod KubernetesApi
pub mod Kubernetes
