-- ===== src/Balancer.antt =====
-- The weighted round robin of the gRPC clients, webook/pkg/grpcx/balancer/wrr/wrr.go.
pub mod Picker
pub mod Weights
mod Tests
