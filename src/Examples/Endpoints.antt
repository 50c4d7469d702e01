-- ===== src/Examples/Endpoints.antt =====
-- Examples for pkg/dataplane: one pod at 10.0.0.5.
use coordino.Base.{◌≡◌, refl, arith, none, some, List, [], ◌∷◌, Bytes, bytes_eq, nat_eq, subst, ap}
use coordino.Base.GoMap.{lookup}
use coordino.Base.Decimal.{pos}
use coordino.Net.{Ip, to4, big_endian}
use coordino.Dataplane.Maps.{lookup_map_entry}
use coordino.Dataplane.Loader.{LoaderConfig, new_ebpf_data_plane, load_programs, identity_map_name}
use coordino.Dataplane.Loader.Mirror.{IsV4}
use coordino.Dataplane.Loader.Runs.{Call, IsByteIp, run, answer, run-lookup_map_entry}

abbrev plain_string : Ip → Bytes
plain_string ip = ip

abbrev config : LoaderConfig
config = record { bpf_mount_path = []; program_dir = []; pin_path = [] }

abbrev pod_ip : Ip
pod_ip = 10 ∷ 0 ∷ 0 ∷ 5 ∷ []

abbrev calls : List Call
calls = Call.adds 3 pod_ip 300 (pos 7) ∷ []

pod_ip-IsV4 : IsV4 pod_ip
pod_ip-IsV4 = (10, 0, 0, 5, refl, (omega arith, (omega arith, (omega arith, (omega arith, tt)))))

pod_ip-IsByteIp : IsByteIp pod_ip
unfolding to4
pod_ip-IsByteIp b e = subst IsV4 (ap (λ o. elim o [ none ↦ pod_ip | some x ↦ x ]) e) pod_ip-IsV4

run-lookup_map_entry_example :
    lookup_map_entry identity_map_name pod_ip
      (run plain_string calls (load_programs (new_ebpf_data_plane config))).map_manager
    ≡ answer plain_string (
        lookup
          (big_endian pod_ip)
          (run plain_string calls (load_programs (new_ebpf_data_plane config))).identity_map)
run-lookup_map_entry_example =
    run-lookup_map_entry plain_string config calls pod_ip (pod_ip-IsByteIp, tt) pod_ip-IsV4
