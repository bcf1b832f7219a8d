-- ===== src/Sfu/Rpc.antt =====
-- meeting-server/sfu/server/RpcProtocol: the frames between the signaling server and the SFU.
pub mod RoundTrip
use meeting_system.Prelude.{
  ℕ, ◌+◌, ◌*◌, ◌/◌, ◌%◌, Bool, List, [], ◌∷◌, ◌++◌, Option, none, some, not, ◌&&◌, ◌||◌, ltb, ◌==◌,
  if◌then◌else◌, length, drop,
}
use meeting_system.Prelude.Bytes.{
  Read, ok, ◌>>=◌, ◌>>◌, require, read_u8, read_u16, read_u32, put16, put32,
}

-- The decoder casts any 16 bits to `RpcMethod`, so a method is a number; so is a kind until it is
-- tested.
pub record RpcFrame : Type 0 where
  pub method : ℕ
  pub kind : ℕ
  pub status : ℕ
  pub payload : List ℕ

abbrev pub request : ℕ
request = 1

abbrev pub response : ℕ
response = 2

abbrev pub rpc_magic : ℕ
rpc_magic = 0x53465552

abbrev pub rpc_version : ℕ
rpc_version = 1

abbrev pub rpc_header_size : ℕ
rpc_header_size = 14

abbrev pub rpc_max_payload_size : ℕ
rpc_max_payload_size = 1048576

abbrev pub is_valid_kind : ℕ → Bool
is_valid_kind kind = kind == request || kind == response

unfoldable pub encode_rpc_frame : RpcFrame → Option (List ℕ)
encode_rpc_frame f =
    if ltb rpc_max_payload_size (length f.payload) || not (is_valid_kind f.kind)
    then none
    else some (
        put32 rpc_magic
        ++ (rpc_version ∷ f.kind % 256 ∷ put16 f.method
            ++ (put16 f.status ++ (put32 (length f.payload) ++ f.payload))))

unfoldable pub decode_rpc_frame : List ℕ → Read RpcFrame
decode_rpc_frame bytes = do
  require (not (ltb (length bytes) rpc_header_size))
  magic ← read_u32 bytes 0
  version ← read_u8 bytes 4
  kind ← read_u8 bytes 5
  method ← read_u16 bytes 6
  status ← read_u16 bytes 8
  payload_size ← read_u32 bytes 10
  require (magic == rpc_magic)
  require (version == rpc_version)
  require (is_valid_kind kind)
  require (not (ltb rpc_max_payload_size payload_size))
  require (length bytes == rpc_header_size + payload_size)
  ok (record {
    method = method;
    kind = kind;
    status = status;
    payload = drop rpc_header_size bytes;
  })
