-- ===== src/Ipam/Checkpoint.antt =====
-- CheckpointManager of pkg/ipam/checkpoint.go. The file system, encoding/json and the texts of
-- addresses and networks are parameters; an error is its text.
pub mod Files
pub mod Restore
use coordino.Base.{
  ℕ, Bool, true, false, not, Option, none, some, List, [], ◌∷◌, ◌++◌, Bytes, bytes, bytes_eq,
  nat_beq, Result, ok, err, if◌then◌else◌, ◌==◌,
}
use coordino.Base.GoMap.{GoMap}
use coordino.Net.{Ip, IpNet}
use coordino.Ipam.Node.{NodeAllocator, get_allocated_ips, allocate}

pub record CheckpointRecord : Type 0 where
  pub pod_name : Bytes
  pub pod_namespace : Bytes
  pub ip : Bytes
  pub allocated_at : ℕ

pub record Checkpoint : Type 0 where
  pub pod_cidr : Bytes
  pub records : List CheckpointRecord
  pub timestamp : ℕ
  pub version : ℕ

-- The calls of package os that the manager makes: WriteFile, Rename, ReadFile and Stat.
pub record FileSystem : Type 1 where
  pub State : Type 0
  pub write_file : State → Bytes → Bytes → State × Option Bytes
  pub rename : State → Bytes → Bytes → State × Option Bytes
  pub read_file : State → Bytes → Result Bytes Bytes
  pub exists : State → Bytes → Bool

-- `json.MarshalIndent` and `json.Unmarshal` for a checkpoint.
pub record Codec : Type 0 where
  pub marshal : Checkpoint → Result Bytes Bytes
  pub unmarshal : Bytes → Result Bytes Checkpoint

-- `strings.SplitN(key, "/", 2)`, as the first part and the second, if there is one.
unfoldable pub split_key : Bytes → Bytes × Option Bytes
split_key [] = ([], none)
split_key (b ∷ bs) =
    let rest = split_key bs in if nat_beq b 47 then ([], some bs) else (b ∷ rest.0, rest.1)

abbrev pub or_empty : Option Bytes → Bytes
or_empty none = []
or_empty (some b) = b

-- The loop of Save over the entries of the map.
unfoldable pub records_of : (Ip → Bytes) → ℕ → GoMap Bytes Ip → List CheckpointRecord
records_of ip_string now [] = []
records_of ip_string now ((key, ip) ∷ rest) =
    let parts = split_key key in
    record {
      pod_name = parts.0;
      pod_namespace = or_empty parts.1;
      ip = ip_string ip;
      allocated_at = now;
    }
    ∷ records_of ip_string now rest

unfoldable pub checkpoint_of : (Ip → Bytes) → (IpNet → Bytes) → ℕ → NodeAllocator → Checkpoint
checkpoint_of ip_string cidr_string now a = record {
  pod_cidr = cidr_string a.pod_cidr;
  records = records_of ip_string now (get_allocated_ips a);
  timestamp = now;
  version = 1;
}

abbrev pub tmp_path : Bytes → Bytes
tmp_path path = path ++ bytes ".tmp"

-- The text of an error after the text of the call that met it.
abbrev pub failed {ℓ} : {S : Type ℓ} → Bytes → S → Bytes → S × Option Bytes
failed text s e = (s, some (text ++ e))

module _ (F : FileSystem) (J : Codec) (path : Bytes) where
  -- `Save` from the rename on.
  unfoldable pub rename_into_place : F.State → F.State × Option Bytes
  rename_into_place s =
      let r = F.rename s (tmp_path path) path in
      elim r.1 [
        | none ↦ (r.0, none)
        | some e ↦ failed (bytes "failed to rename temp checkpoint file: ") r.0 e
      ]

  unfoldable pub save : Checkpoint → F.State → F.State × Option Bytes
  save checkpoint s = elim (J.marshal checkpoint) [
    | err e ↦ failed (bytes "failed to marshal checkpoint: ") s e
    | ok content ↦
        let r = F.write_file s (tmp_path path) content in
        elim r.1 [
          | none ↦ rename_into_place r.0
          | some e ↦ failed (bytes "failed to write temp checkpoint file: ") r.0 e
        ]
  ]

  unfoldable pub load : F.State → Result Bytes Checkpoint
  load s = elim (F.read_file s path) [
    | err e ↦ err (bytes "failed to read checkpoint file: " ++ e)
    | ok content ↦ elim (J.unmarshal content) [
      | err e ↦ err (bytes "failed to unmarshal checkpoint: " ++ e)
      | ok checkpoint ↦ ok checkpoint
    ]
  ]

-- The text of the error that Allocate returns.
abbrev pub allocate_error : (IpNet → Bytes) → NodeAllocator → Bytes
allocate_error cidr_string a = bytes "no available IPs in block " ++ cidr_string a.pod_cidr

abbrev pub restore_error : (IpNet → Bytes) → NodeAllocator → CheckpointRecord → Bytes
restore_error cidr_string a r =
    bytes "failed to restore allocation for "
    ++ r.pod_namespace
    ++ bytes "/"
    ++ r.pod_name
    ++ bytes ": "
    ++ allocate_error cidr_string a

-- What `Restore` leaves: the allocator, the records it warned about (they got another address than
-- their own) and the error.
pub record Restored : Type 0 where
  pub allocator : NodeAllocator
  pub warned : List CheckpointRecord
  pub error : Option Bytes

abbrev pub warn : Bool → CheckpointRecord → Restored → Restored
warn same r o = record o { warned = if same then o.warned else r ∷ o.warned }

unfoldable pub restore :
    (Ip → Bytes) → (IpNet → Bytes) → ℕ → List CheckpointRecord → NodeAllocator → Restored
restore ip_string cidr_string now [] a = record { allocator = a; warned = []; error = none }
restore ip_string cidr_string now (r ∷ rs) a =
    let attempt = allocate a r.pod_name r.pod_namespace now in
    let rest = restore ip_string cidr_string now rs attempt.0 in
    elim attempt.1 [
      | err e ↦ record {
        allocator = attempt.0;
        warned = [];
        error = some (restore_error cidr_string attempt.0 r);
      }
      | ok ip ↦ warn (ip_string ip == r.ip) r rest
    ]
