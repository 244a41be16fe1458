-- ===== src/Api/Stat/Bytes.antt =====
-- The `emq_status` of a response of src/protocol.h, as the server writes it, and its copying.
use libemq.Api.Stat.{ServerStatus, copy_status, status_size}
use libemq.Base.{refl, ℕ, [], List, length, ◌≡◌, append-nil, ◌∙◌}
use libemq.Wire.{Field, word, chars, Fits, slots, struct_bytes, read_struct, read_field}
use libemq.Wire.Structs.{length-struct_bytes, read_struct-struct_bytes}
use libemq.Base.{zero, suc, All, ◌∷◌, ap}

-- The server's side: the members of `response.body` in src/protocol.h, the values that they can hold,
-- and their bytes.
abbrev pub status_fields : ServerStatus → List Field
status_fields x =
    word 1 x.major
    ∷ word 1 x.minor
    ∷ word 1 x.patch
    ∷ word 4 x.uptime
    ∷ word 4 x.used_cpu_sys
    ∷ word 4 x.used_cpu_user
    ∷ word 4 x.used_memory
    ∷ word 4 x.used_memory_rss
    ∷ word 4 x.fragmentation_ratio
    ∷ word 4 x.clients
    ∷ word 4 x.users
    ∷ word 4 x.queues
    ∷ word 4 x.routes
    ∷ word 4 x.channels
    ∷ word 4 x.resv3
    ∷ word 4 x.resv4
    ∷ []

abbrev pub IsStatus : ServerStatus → Type 0
IsStatus x = All Fits (status_fields x)

unfoldable pub status_bytes : ServerStatus → List ℕ
status_bytes x = struct_bytes (status_fields x)

pub length-status_bytes : (x : ServerStatus) → IsStatus x → length (status_bytes x) ≡ status_size
unfolding status_bytes
length-status_bytes x h = length-struct_bytes (status_fields x) h

-- The number of a member, by its position.
abbrev value_at : ℕ → List Field → ℕ
value_at n [] = 0
value_at zero (chars k s ∷ fs) = 0
value_at zero (word k v ∷ fs) = v
value_at (suc n) (f ∷ fs) = value_at n fs

abbrev status_of : List Field → ServerStatus
status_of fs = record {
  major = value_at 0 fs;
  minor = value_at 1 fs;
  patch = value_at 2 fs;
  uptime = value_at 3 fs;
  used_cpu_sys = value_at 4 fs;
  used_cpu_user = value_at 5 fs;
  used_memory = value_at 6 fs;
  used_memory_rss = value_at 7 fs;
  fragmentation_ratio = value_at 8 fs;
  clients = value_at 9 fs;
  users = value_at 10 fs;
  queues = value_at 11 fs;
  routes = value_at 12 fs;
  channels = value_at 13 fs;
  resv3 = value_at 14 fs;
  resv4 = value_at 15 fs;
}

-- The copy reads the members one after the other.
copy_status-read_struct :
    (x : ServerStatus) (bs : List ℕ)
    → copy_status bs ≡ status_of (read_struct (slots (status_fields x)) bs)
unfolding copy_status read_struct read_field
copy_status-read_struct x bs = refl

pub copy_status-status_bytes : (x : ServerStatus) → IsStatus x → copy_status (status_bytes x) ≡ x
unfolding status_bytes
copy_status-status_bytes x h =
    copy_status-read_struct x (struct_bytes (status_fields x))
    ∙ ap status_of (rw append-nil at (read_struct-struct_bytes (status_fields x) [] h))
