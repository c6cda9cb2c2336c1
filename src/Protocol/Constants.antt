-- ===== src/Protocol/Constants.antt =====
-- server/bitchatd/protocol/constants.py: the numbers that the modelled code uses.
use bit_chat_pi.Prelude.{List, [], ℕ, ◌∷◌}
use bit_chat_pi.Bytes.{Bytes}

-- `class PacketFlags`
abbrev pub has_recipient : ℕ
has_recipient = 0x01

abbrev pub has_signature : ℕ
has_signature = 0x02

abbrev pub is_compressed : ℕ
is_compressed = 0x04

abbrev pub has_route : ℕ
has_route = 0x08

abbrev pub header_v1_size : ℕ
header_v1_size = 14

abbrev pub header_v2_size : ℕ
header_v2_size = 16

abbrev pub peer_id_size : ℕ
peer_id_size = 8

abbrev pub message_ttl_hops : ℕ
message_ttl_hops = 7

abbrev pub fragment_size_threshold : ℕ
fragment_size_threshold = 512

abbrev pub max_fragment_size : ℕ
max_fragment_size = 469

abbrev pub max_fragments_per_id : ℕ
max_fragments_per_id = 256

abbrev pub max_fragment_total_bytes : ℕ
max_fragment_total_bytes = 1_048_576

abbrev pub max_active_fragment_sets : ℕ
max_active_fragment_sets = 64

abbrev pub max_global_fragment_bytes : ℕ
max_global_fragment_bytes = 4_194_304

abbrev pub fragment_header_size : ℕ
fragment_header_size = 13

abbrev pub fragment_id_size : ℕ
fragment_id_size = 8

abbrev pub relay_high_ttl_threshold : ℕ
relay_high_ttl_threshold = 4

abbrev pub relay_small_net_max : ℕ
relay_small_net_max = 3

abbrev pub message_timeout_ms : ℕ
message_timeout_ms = 300_000

abbrev pub max_processed_messages : ℕ
max_processed_messages = 10_000

abbrev pub compression_threshold_bytes : ℕ
compression_threshold_bytes = 100

abbrev pub max_payload_length : ℕ
max_payload_length = 10_485_760

abbrev pub max_compression_ratio : ℕ
max_compression_ratio = 50_000

abbrev pub noise_rekey_time_ms : ℕ
noise_rekey_time_ms = 3_600_000

abbrev pub noise_rekey_msg_limit_session : ℕ
noise_rekey_msg_limit_session = 10_000

abbrev pub stale_peer_timeout_ms : ℕ
stale_peer_timeout_ms = 180_000

abbrev pub broadcast_id : Bytes
broadcast_id = 0xff ∷ 0xff ∷ 0xff ∷ 0xff ∷ 0xff ∷ 0xff ∷ 0xff ∷ 0xff ∷ []

abbrev pub padding_block_sizes : List ℕ
padding_block_sizes = 256 ∷ 512 ∷ 1024 ∷ 2048 ∷ []
