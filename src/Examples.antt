-- ===== src/Examples.antt =====
-- Concrete data for the examples: one phone, one PC, one unlock.
mod Wire
mod Logon
mod Agreement
mod Files
mod Sockets
mod Store
mod Devices
mod Link
mod Lifecycle
mod Connection
mod Unlock
mod Pairing
mod Der
use phonekey.Prelude.{
  ℕ, true, Bool, ◌&&◌, List, [], ◌∷◌, ◌++◌, some, ◌==◌, same_bytes, take, replicate,
}
use phonekey.Protocol.{
  AuthPayload, domain_prefix, current_protocol_version, algorithm_ecdsa_p256_sha256, serialize,
}
use phonekey.Frame.{TransportFrame, new_frame, unlock_resp}
use phonekey.Challenge.{ChallengeRecord, Request, generate_challenge}
use phonekey.Challenge.Lifetime.{echo}
use phonekey.Signature.{Cng}
use phonekey.Registry.{DeviceRegistry, device_key, new_device}
use phonekey.Agent.{AgentService}

abbrev pub phone : List ℕ
phone = replicate 16 3

abbrev pub other_phone : List ℕ
other_phone = replicate 16 4

abbrev pub session : List ℕ
session = replicate 16 1

abbrev pub nonce : List ℕ
nonce = replicate 32 2

abbrev pub this_pc : List ℕ
this_pc = replicate 16 9

abbrev pub payload : AuthPayload
payload = record {
  domain = domain_prefix;
  protocol_version = current_protocol_version;
  algorithm_id = algorithm_ecdsa_p256_sha256;
  device_id = phone;
  session_id = session;
  pc_id = this_pc;
  challenge = nonce;
  expiration_timestamp_ms = 31000;
}

-- A stand-in for Windows CNG: every key gets the handle 7, and a signature that starts with 1 is
-- accepted under it.
abbrev pub toy_cng : Cng
toy_cng = record {
  sha256 = λ bytes. some (take 32 bytes);
  verify_hash = λ key hash raw. (key == 7) && same_bytes (take 1 raw) (1 ∷ []);
  import_key_pair = λ xy. 7;
}

abbrev pub toy_signature : List ℕ
toy_signature = 1 ∷ replicate 63 0

abbrev pub point : List ℕ
point = replicate 64 8

abbrev pub no_devices : DeviceRegistry
no_devices = record { devices = []; destroyed = [] }

abbrev pub one_device : DeviceRegistry
one_device = record { devices = (device_key phone, new_device phone [] 7) ∷ []; destroyed = [] }

abbrev pub answer_frame : TransportFrame
answer_frame = record new_frame {
  message_type = unlock_resp;
  payload = serialize payload ++ toy_signature;
}

abbrev pub issued : ChallengeRecord
issued = generate_challenge session nonce 1000 phone this_pc

abbrev pub agent : AgentService
agent = record {
  pc_id = this_pc;
  challenge_store = [];
  device_registry = one_device;
  is_connected = true;
}

abbrev pub request_at : ℕ → Request
request_at now = echo session nonce phone this_pc now
