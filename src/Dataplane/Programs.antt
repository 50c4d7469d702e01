-- ===== src/Dataplane/Programs.antt =====
-- The table of programs of pkg/dataplane/ebpf/programs.go.
use coordino.Base.{Bytes, bytes}

pub record ProgramInfo : Type 0 where
  pub name : Bytes
  pub type : Bytes
  pub attach_point : Bytes
  pub pinned_path : Bytes

pub record Programs : Type 0 where
  pub tc_ingress : ProgramInfo
  pub tc_egress : ProgramInfo
  pub xdp_ingress : ProgramInfo

unfoldable pub default_programs : Programs
default_programs = record {
  tc_ingress = record {
    name = bytes "cni_tc_ingress";
    type = bytes "tc";
    attach_point = bytes "ingress";
    pinned_path = bytes "/sys/fs/bpf/coordino/tc_ingress";
  };
  tc_egress = record {
    name = bytes "cni_tc_egress";
    type = bytes "tc";
    attach_point = bytes "egress";
    pinned_path = bytes "/sys/fs/bpf/coordino/tc_egress";
  };
  xdp_ingress = record {
    name = bytes "cni_xdp_ingress";
    type = bytes "xdp";
    attach_point = bytes "ingress";
    pinned_path = bytes "/sys/fs/bpf/coordino/xdp_ingress";
  };
}
