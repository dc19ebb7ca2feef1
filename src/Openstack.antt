-- ===== src/Openstack.antt =====
-- loadbalancer-controller/internal/openstack: what the controller does to the OpenStack project.
pub mod Names
pub mod FloatingIp
pub mod LoadBalancer
pub mod SecurityGroup
pub mod PortAttach
pub mod Network
pub mod Sweep
pub mod Auth
