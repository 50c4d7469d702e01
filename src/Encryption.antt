-- ===== src/Encryption.antt =====
-- Manager of pkg/encryption/wireguard.go. `none` for the key pair is nil; `now` is the clock's
-- reading. A peer is added by its pointer: the map's entry is the peer as it was then.
use coordino.Base.{
  ℕ, Bool, true, false, not, Option, none, some, List, [], ◌∷◌, Bytes, bytes, bytes_eq,
  if◌then◌else◌, ◌==◌,
}
use coordino.Base.GoMap.{GoMap, insert, delete}
use coordino.Base.Decimal.{ℤ, pos, negsuc}

pub record WireGuardConfig : Type 0 where
  pub interface_name : Bytes
  pub listen_port : ℤ
  pub private_key_path : Bytes
  pub mtu : ℤ

pub record Peer : Type 0 where
  pub public_key : Bytes
  pub endpoint : Bytes
  pub allowed_ips : List Bytes
  pub node_name : Bytes
  pub last_handshake : ℕ

pub record KeyPair : Type 0 where
  pub private_key : Bytes
  pub public_key : Bytes
  pub generated_at : ℕ

pub data EncryptionScope : Type 0 where
  cluster_wide per_namespace disabled : EncryptionScope
  other_scope : Bytes → EncryptionScope

pub record Manager : Type 0 where
  pub config : WireGuardConfig
  pub key_pair : Option KeyPair
  pub peers : GoMap Bytes Peer
  pub scope : EncryptionScope

abbrev is_zero : ℤ → Bool
is_zero (pos ℕ.zero) = true
is_zero (pos (ℕ.suc n)) = false
is_zero (negsuc n) = false

unfoldable pub new_manager : WireGuardConfig → Manager
new_manager config = record {
  config = record config {
    interface_name = if config.interface_name == [] then bytes "wg0" else config.interface_name;
    listen_port = if is_zero config.listen_port then pos 51820 else config.listen_port;
  };
  key_pair = none;
  peers = [];
  scope = EncryptionScope.disabled;
}

-- A stub, which returns no error.
unfoldable pub generate_key_pair : ℕ → KeyPair
generate_key_pair now = record {
  private_key = bytes "stub-private-key";
  public_key = bytes "stub-public-key";
  generated_at = now;
}

unfoldable pub set_key_pair : Option KeyPair → Manager → Manager
set_key_pair kp m = record m { key_pair = kp }

unfoldable pub get_public_key : Manager → Bytes
get_public_key m = elim m.key_pair [ none ↦ [] | some kp ↦ kp.public_key ]

unfoldable pub add_peer : Peer → Manager → Manager
add_peer peer m = record m { peers = insert peer.node_name peer m.peers }

unfoldable pub remove_peer : Bytes → Manager → Manager
remove_peer node_name m = record m { peers = delete node_name m.peers }

unfoldable pub provision_all_peers : List Peer → Manager → Manager
unfolding add_peer
provision_all_peers [] m = m
provision_all_peers (p ∷ ps) m = provision_all_peers ps (add_peer p m)

unfoldable pub set_scope : EncryptionScope → Manager → Manager
set_scope scope m = record m { scope = scope }

unfoldable pub get_scope : Manager → EncryptionScope
get_scope m = m.scope

abbrev is_disabled : EncryptionScope → Bool
is_disabled EncryptionScope.disabled = true
is_disabled EncryptionScope.cluster_wide = false
is_disabled EncryptionScope.per_namespace = false
is_disabled (EncryptionScope.other_scope name) = false

unfoldable pub is_enabled : Manager → Bool
is_enabled m = not (is_disabled m.scope)

-- The new pair is returned, and the manager keeps its own.
unfoldable pub rotate_keys : ℕ → Manager → Manager × KeyPair
unfolding generate_key_pair
rotate_keys now m = (m, generate_key_pair now)

unfoldable pub get_peer_status : Manager → GoMap Bytes Peer
get_peer_status m = m.peers

unfoldable pub interface_exists : Manager → Bool
interface_exists m = false
