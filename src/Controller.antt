-- ===== src/Controller.antt =====
-- loadbalancer-controller/internal/controller: the reconcilers of Services and of HelmReleases.
pub mod ServiceReconciler
pub mod ClusterReconciler
pub mod KscWatcher
