-- ===== src/Mesh/Relay/Order.antt =====
-- The order of the entries in the deduplication cache: what is evicted, and what stays.
use bit_chat_pi.Prelude.{
  =?-refl, [], arith, false, if◌then◌else◌, length, length-append, list_beq_iff, refl, some, ℕ,
  ◌++◌, ◌+◌, ◌<◌, ◌=?◌, ◌∷◌, ◌≡◌, ◌≤◌, list_eq,
}
use bit_chat_pi.Bytes.{Bytes}
use bit_chat_pi.Dict.{get, remove}
use bit_chat_pi.Mesh.Relay.Cache.{Seen, evict}
use bit_chat_pi.Dict.Keys.{Fresh, IsDict}
use bit_chat_pi.Dict.Laws.{length-remove}

pub length-evict-le : (n : ℕ) (seen : Seen) → length (evict n seen) ≤ n
unfolding evict
length-evict-le n [] = omega arith
length-evict-le n (x ∷ seen) = ground (arith, length-evict-le n seen)

-- How many entries stand behind the one of a key.
unfoldable pub behind : Bytes → Seen → ℕ
behind k [] = 0
behind k ((j, ts) ∷ seen) = if k =? j then length seen else behind k seen

-- The entry of `k` is there, and at most `n` entries are behind it.
pub record Kept (k : Bytes) (ts n : ℕ) (seen : Seen) : Type 0 where
  pub entry : get k seen ≡ some ts
  pub near : behind k seen ≤ n

pub evict-get :
    (n : ℕ) (k : Bytes) (seen : Seen)
    → behind k seen < n
    → (get k (evict n seen) ≡ get k seen) × (behind k (evict n seen) ≡ behind k seen)
unfolding evict get behind
evict-get n k [] h = (refl, refl)
evict-get n k ((j, ts) ∷ seen) h = ground (arith, evict-get n k seen)

Fresh-evict : (n : ℕ) (k : Bytes) (seen : Seen) → Fresh k seen → Fresh k (evict n seen)
unfolding evict get
Fresh-evict n k [] h = refl
Fresh-evict n k ((j, ts) ∷ seen) h = ground (arith, Fresh-evict n k seen)

pub evict-IsDict : (n : ℕ) (seen : Seen) → IsDict seen → IsDict (evict n seen)
unfolding evict
evict-IsDict n [] h = tt
evict-IsDict n ((j, ts) ∷ seen) h =
    ground (arith, evict-IsDict n seen h.1, Fresh-evict n j seen h.0)

-- An entry at the end, for a key that is not there.
module _ (j : Bytes) (now : ℕ) where
  abbrev last : Seen
  last = (j, now) ∷ []

  pub get-last_ne : (k : Bytes) (d : Seen) → (k =? j) ≡ false → get k (d ++ last) ≡ get k d
  unfolding get
  get-last_ne k [] h = rw h
  get-last_ne k ((i, ts) ∷ d) h = ground (arith, get-last_ne k d h)

  pub get-last_self : (d : Seen) → Fresh j d → get j (d ++ last) ≡ some now
  unfolding get
  get-last_self [] h = rw =?-refl
  get-last_self ((i, ts) ∷ d) h = ground (arith, get-last_self d)

  pub behind-last_self : (d : Seen) → Fresh j d → behind j (d ++ last) ≡ 0
  unfolding get behind
  behind-last_self [] h = ground arith
  behind-last_self ((i, ts) ∷ d) h = ground (arith, behind-last_self d)

  pub behind-last-le : (k : Bytes) (d : Seen) → behind k (d ++ last) ≤ behind k d + 1
  unfolding behind
  behind-last-le k [] = ground arith
  behind-last-le k ((i, ts) ∷ d) = ground (arith, length-append d last, behind-last-le k d)

  pub append-IsDict : (d : Seen) → Fresh j d → IsDict d → IsDict (d ++ last)
  unfolding get
  append-IsDict [] f h = (refl, tt)
  append-IsDict ((i, ts) ∷ d) f h = ground (
    arith,
    append-IsDict d (ground arith) h.1,
    get-last_ne i d,
    list_beq_iff i j,
    list_beq_iff j i,
  )

pub behind-remove-le :
    (j k : Bytes) (d : Seen) → (k =? j) ≡ false → behind k (remove j d) ≤ behind k d
unfolding behind remove
behind-remove-le j k [] h = omega arith
behind-remove-le j k ((i, ts) ∷ d) h = ground (
  arith,
  behind-remove-le j k d h,
  length-remove j d,
  list_beq_iff k i,
  list_beq_iff j i,
  list_beq_iff k j,
)
