-- ===== src/Mesh/Fragments/Manager.antt =====
-- The state of `FragmentManager`, and the steps that its handlers share.
use bit_chat_pi.Prelude.{
  Bool, List, Option, [], length, min, none, some, ℕ, ◌-◌, ◌∷◌, list_eq, nat_eq, pair_eq,
}
use bit_chat_pi.Bytes.{Bytes}
use bit_chat_pi.Text.{Text}
use bit_chat_pi.Dict.Sums.{sum_values}
use bit_chat_pi.Dict.{Dict, get, keys, remove, set}

-- The received data by their index.
abbrev pub Fragments : Type 0
Fragments = Dict ℕ Bytes

-- `_FragmentSet`. Times are in milliseconds; a text is "" where the source has "".
pub record FragmentSet : Type 0 where
  pub original_type : ℕ
  pub total : ℕ
  pub timestamp_ms : ℕ
  pub sender_hex : Text
  pub frag_id : Text
  pub attempt : ℕ
  pub last_fragment_ms : ℕ
  pub fragments : Fragments
  pub cumulative_bytes : ℕ
  pub content_id : Text

-- Sender, number of fragments and type of a transfer.
abbrev pub RescueKey : Type 0
RescueKey = Text × (ℕ × ℕ)

pub record Manager : Type 0 where
  pub sets : Dict Text FragmentSet
  pub global_bytes : ℕ
  pub rescue : Dict RescueKey Fragments
  pub rescue_ts : Dict RescueKey ℕ
  pub attempt_count : Dict RescueKey ℕ
  pub has_rescue_path : Bool

-- The calls of the callbacks, where they are set, and of `_save_rescue_cache`.
pub data Event : Type 0 where
  set_started : FragmentSet → ℕ → Event
  completed : FragmentSet → Event
  expired : FragmentSet → List ℕ → ℕ → List ℕ → Event
  rescue_saved : Event

abbrev pub rescue_ttl_ms : ℕ
rescue_ttl_ms = 3_600_000

abbrev pub rescue_max_entries : ℕ
rescue_max_entries = 20

abbrev pub rescue_max_bytes : ℕ
rescue_max_bytes = 4_194_304

-- `len` of the values, summed up.
abbrev pub total_bytes : Fragments → ℕ
total_bytes = sum_values length

-- `{**d, **e}`, which is `update` as well.
abbrev pub merge : Fragments → Fragments → Fragments
merge d [] = d
merge d ((i, xs) ∷ e) = merge (set i xs d) e

-- `min(d.keys())`; `none` is the empty dictionary.
unfoldable pub lowest : Fragments → Option ℕ
lowest [] = none
lowest ((i, xs) ∷ d) = elim (lowest d) [ none ↦ some i | some j ↦ some (min i j) ]

abbrev pub rescue_key : FragmentSet → RescueKey
rescue_key s = (s.sender_hex, (s.total, s.original_type))

-- `_remove_set`
unfoldable pub remove_set : Text → Manager → Manager
remove_set key m = elim (get key m.sets) [
  | none ↦ m
  | some s ↦ record m {
    sets = remove key m.sets;
    global_bytes = m.global_bytes - s.cumulative_bytes;
  }
]

abbrev pub remove_sets : List Text → Manager → Manager
remove_sets [] m = m
remove_sets (key ∷ keys) m = remove_sets keys (remove_set key m)

-- `hash` is the first 8 digits of SHA-256, a parameter.
unfoldable pub content_of : (Bytes → Text) → Fragments → Text
unfolding lowest
content_of hash d = elim (lowest d) [
  | none ↦ []
  | some i ↦ elim (get i d) [ none ↦ [] | some xs ↦ hash xs ]
]
