-- ===== src/Kube.antt =====
-- app/services/kubernetes_service.py: rollout restarts of deployments. `Value` is the dynamic
-- data of the Kubernetes client, `Rollout` the reading of it, `Watch` the watch loop, `Restart`
-- the restart of one deployment with its error texts, `Workers` the table of running restarts,
-- `Endpoint` the answers of the endpoint.
mod Tests
pub mod Value
pub mod Rollout
pub mod Errors
pub mod Watch
pub mod Restart
pub mod Workers
pub mod Endpoint
