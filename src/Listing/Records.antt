-- ===== src/Listing/Records.antt =====
-- The server's side of the records that src/emq.c copies into lists: their bytes, and the values
-- that their members can hold.
use libemq.Base.{
  refl, ℕ, List, ◌<◌, ◌++◌, length, ◌^◌, ◌≡◌, take, arith, append_assoc, drop, length-append,
  take-append, sym, drop-append,
}
use libemq.Listing.{
  user_layout, User, Layout, channel_layout, Queue, route_layout, route_key_layout, Channel, Route,
  queue_layout, RouteKey,
}
use libemq.Wire.{encode, decode}
use libemq.Wire.Words.{length-encode, decode-encode}

-- A way to write the records of a layout, and its laws.
pub record Printer {A : Type 0} (l : Layout A) : Type 1 where
  pub print : A → List ℕ
  pub IsRecord : A → Type 0
  pub wire_pos : 0 < l.wire
  pub length-print : (a : A) → IsRecord a → length (print a) ≡ l.wire
  pub copy-print : (a : A) (rest : List ℕ) → IsRecord a → l.copy (print a ++ rest) ≡ a

-- One member off the front.
cut : (n : ℕ) (xs ys : List ℕ) → length xs ≡ n → (take n (xs ++ ys) ≡ xs) × (drop n (xs ++ ys) ≡ ys)
cut n xs ys h = (take-append n xs ys (sym h), drop-append n xs ys (sym h))

pub cut_word :
    (n v : ℕ) (ys : List ℕ)
    → v < 256 ^ n
    → (decode (take n (encode n v ++ ys)) ≡ v) × (drop n (encode n v ++ ys) ≡ ys)
cut_word n v ys h =
    let (front, back) = cut n (encode n v) ys (length-encode n v) in
    (rw (front, decode-encode n v h) refl, back)

pub record IsUser (u : User) : Type 0 where
  pub name_fits : length u.name ≡ 32
  pub password_fits : length u.password ≡ 32
  pub perm_fits : u.perm < 256 ^ 8

unfoldable pub user_bytes : User → List ℕ
user_bytes u = u.name ++ (u.password ++ encode 8 u.perm)

pub length-user_bytes : (u : User) → IsUser u → length (user_bytes u) ≡ user_layout.wire
unfolding user_bytes user_layout
length-user_bytes u h = omega (
  arith,
  length-append u.name (u.password ++ encode 8 u.perm),
  length-append u.password (encode 8 u.perm),
  length-encode 8 u.perm,
  h.name_fits,
  h.password_fits,
)

pub copy-user_bytes :
    (u : User) (rest : List ℕ) → IsUser u → user_layout.copy (user_bytes u ++ rest) ≡ u
unfolding user_layout user_bytes
copy-user_bytes u rest h =
    let perm_rest = encode 8 u.perm ++ rest in
    let (n, n') = cut 32 u.name (u.password ++ perm_rest) h.name_fits in
    let (q, q') = cut 32 u.password perm_rest h.password_fits in
    let (v, v') = cut_word 8 u.perm rest h.perm_fits in
    rw (append_assoc, append_assoc, n, n', q, q', v) refl

pub record IsQueue (q : Queue) : Type 0 where
  pub name_fits : length q.name ≡ 64
  pub max_msg_fits : q.max_msg < 256 ^ 4
  pub max_msg_size_fits : q.max_msg_size < 256 ^ 4
  pub flags_fits : q.flags < 256 ^ 4
  pub size_fits : q.size < 256 ^ 4
  pub declared_clients_fits : q.declared_clients < 256 ^ 4
  pub subscribed_clients_fits : q.subscribed_clients < 256 ^ 4

unfoldable pub queue_bytes : Queue → List ℕ
queue_bytes q =
    q.name
    ++ (encode 4 q.max_msg
        ++ (encode 4 q.max_msg_size
            ++ (encode 4 q.flags
                ++ (encode 4 q.size
                    ++ (encode 4 q.declared_clients ++ (encode 4 q.subscribed_clients))))))

pub length-queue_bytes : (q : Queue) → IsQueue q → length (queue_bytes q) ≡ queue_layout.wire
unfolding queue_bytes queue_layout
length-queue_bytes q h = omega (
  arith,
  length-append q.name (
      encode 4 q.max_msg
      ++ (encode 4 q.max_msg_size
          ++ (encode 4 q.flags
              ++ (encode 4 q.size
                  ++ (encode 4 q.declared_clients ++ (encode 4 q.subscribed_clients)))))),
  length-append (encode 4 q.max_msg) (
      encode 4 q.max_msg_size
      ++ (encode 4 q.flags
          ++ (encode 4 q.size
              ++ (encode 4 q.declared_clients ++ (encode 4 q.subscribed_clients))))),
  length-append (encode 4 q.max_msg_size) (
      encode 4 q.flags
      ++ (encode 4 q.size ++ (encode 4 q.declared_clients ++ (encode 4 q.subscribed_clients)))),
  length-append (encode 4 q.flags)
      (encode 4 q.size ++ (encode 4 q.declared_clients ++ (encode 4 q.subscribed_clients))),
  length-append (encode 4 q.size) (encode 4 q.declared_clients ++ (encode 4 q.subscribed_clients)),
  length-append (encode 4 q.declared_clients) (encode 4 q.subscribed_clients),
  h.name_fits,
  length-encode 4 q.max_msg,
  length-encode 4 q.max_msg_size,
  length-encode 4 q.flags,
  length-encode 4 q.size,
  length-encode 4 q.declared_clients,
  length-encode 4 q.subscribed_clients,
)

pub copy-queue_bytes :
    (q : Queue) (rest : List ℕ) → IsQueue q → queue_layout.copy (queue_bytes q ++ rest) ≡ q
unfolding queue_layout queue_bytes
copy-queue_bytes q rest h =
    let (e0, d0) =
      cut 64 q.name
        (encode 4 q.max_msg
          ++ (encode 4 q.max_msg_size
              ++ (encode 4 q.flags
                  ++ (encode 4 q.size
                      ++ (encode 4 q.declared_clients
                          ++ (encode 4 q.subscribed_clients ++ rest))))))
        h.name_fits in
    let (e1, d1) =
      cut_word 4 q.max_msg
        (encode 4 q.max_msg_size
          ++ (encode 4 q.flags
              ++ (encode 4 q.size
                  ++ (encode 4 q.declared_clients ++ (encode 4 q.subscribed_clients ++ rest)))))
        h.max_msg_fits in
    let (e2, d2) =
      cut_word 4 q.max_msg_size
        (encode 4 q.flags
          ++ (encode 4 q.size
              ++ (encode 4 q.declared_clients ++ (encode 4 q.subscribed_clients ++ rest))))
        h.max_msg_size_fits in
    let (e3, d3) =
      cut_word 4 q.flags
        (encode 4 q.size
          ++ (encode 4 q.declared_clients ++ (encode 4 q.subscribed_clients ++ rest)))
        h.flags_fits in
    let (e4, d4) =
      cut_word 4 q.size (encode 4 q.declared_clients ++ (encode 4 q.subscribed_clients ++ rest))
        h.size_fits in
    let (e5, d5) =
      cut_word 4 q.declared_clients (encode 4 q.subscribed_clients ++ rest)
        h.declared_clients_fits in
    let (e6, d6) = cut_word 4 q.subscribed_clients rest h.subscribed_clients_fits in
    rw
      (
        append_assoc, append_assoc, append_assoc, append_assoc, append_assoc, append_assoc, e0, d0,
        e1, d1, e2, d2, e3, d3, e4, d4, e5, d5, e6,
      )
      refl

pub record IsRoute (r : Route) : Type 0 where
  pub name_fits : length r.name ≡ 64
  pub flags_fits : r.flags < 256 ^ 4
  pub keys_fits : r.keys < 256 ^ 4

unfoldable pub route_bytes : Route → List ℕ
route_bytes r = r.name ++ (encode 4 r.flags ++ (encode 4 r.keys))

pub length-route_bytes : (r : Route) → IsRoute r → length (route_bytes r) ≡ route_layout.wire
unfolding route_bytes route_layout
length-route_bytes r h = omega (
  arith,
  length-append r.name (encode 4 r.flags ++ (encode 4 r.keys)),
  length-append (encode 4 r.flags) (encode 4 r.keys),
  h.name_fits,
  length-encode 4 r.flags,
  length-encode 4 r.keys,
)

pub copy-route_bytes :
    (r : Route) (rest : List ℕ) → IsRoute r → route_layout.copy (route_bytes r ++ rest) ≡ r
unfolding route_layout route_bytes
copy-route_bytes r rest h =
    let (e0, d0) = cut 64 r.name (encode 4 r.flags ++ (encode 4 r.keys ++ rest)) h.name_fits in
    let (e1, d1) = cut_word 4 r.flags (encode 4 r.keys ++ rest) h.flags_fits in
    let (e2, d2) = cut_word 4 r.keys rest h.keys_fits in
    rw (append_assoc, append_assoc, e0, d0, e1, d1, e2) refl

pub record IsRouteKey (k : RouteKey) : Type 0 where
  pub key_fits : length k.key ≡ 32
  pub queue_fits : length k.queue ≡ 64

unfoldable pub route_key_bytes : RouteKey → List ℕ
route_key_bytes k = k.key ++ k.queue

pub length-route_key_bytes :
    (k : RouteKey) → IsRouteKey k → length (route_key_bytes k) ≡ route_key_layout.wire
unfolding route_key_bytes route_key_layout
length-route_key_bytes k h = omega (arith, length-append k.key (k.queue), h.key_fits, h.queue_fits)

pub copy-route_key_bytes :
    (k : RouteKey) (rest : List ℕ)
    → IsRouteKey k
    → route_key_layout.copy (route_key_bytes k ++ rest) ≡ k
unfolding route_key_layout route_key_bytes
copy-route_key_bytes k rest h =
    let (e0, d0) = cut 32 k.key (k.queue ++ rest) h.key_fits in
    let (e1, d1) = cut 64 k.queue rest h.queue_fits in rw (append_assoc, e0, d0, e1) refl

pub record IsChannel (c : Channel) : Type 0 where
  pub name_fits : length c.name ≡ 64
  pub flags_fits : c.flags < 256 ^ 4
  pub topics_fits : c.topics < 256 ^ 4
  pub patterns_fits : c.patterns < 256 ^ 4

unfoldable pub channel_bytes : Channel → List ℕ
channel_bytes c = c.name ++ (encode 4 c.flags ++ (encode 4 c.topics ++ (encode 4 c.patterns)))

pub length-channel_bytes :
    (c : Channel) → IsChannel c → length (channel_bytes c) ≡ channel_layout.wire
unfolding channel_bytes channel_layout
length-channel_bytes c h = omega (
  arith,
  length-append c.name (encode 4 c.flags ++ (encode 4 c.topics ++ (encode 4 c.patterns))),
  length-append (encode 4 c.flags) (encode 4 c.topics ++ (encode 4 c.patterns)),
  length-append (encode 4 c.topics) (encode 4 c.patterns),
  h.name_fits,
  length-encode 4 c.flags,
  length-encode 4 c.topics,
  length-encode 4 c.patterns,
)

pub copy-channel_bytes :
    (c : Channel) (rest : List ℕ) → IsChannel c → channel_layout.copy (channel_bytes c ++ rest) ≡ c
unfolding channel_layout channel_bytes
copy-channel_bytes c rest h =
    let (e0, d0) =
      cut 64 c.name (encode 4 c.flags ++ (encode 4 c.topics ++ (encode 4 c.patterns ++ rest)))
        h.name_fits in
    let (e1, d1) =
      cut_word 4 c.flags (encode 4 c.topics ++ (encode 4 c.patterns ++ rest)) h.flags_fits in
    let (e2, d2) = cut_word 4 c.topics (encode 4 c.patterns ++ rest) h.topics_fits in
    let (e3, d3) = cut_word 4 c.patterns rest h.patterns_fits in
    rw (append_assoc, append_assoc, append_assoc, e0, d0, e1, d1, e2, d2, e3) refl

pub user_wire_pos : 0 < user_layout.wire
unfolding user_layout
user_wire_pos = omega arith

abbrev pub user_printer : Printer user_layout
user_printer = record {
  print = user_bytes;
  IsRecord = IsUser;
  wire_pos = user_wire_pos;
  length-print = length-user_bytes;
  copy-print = copy-user_bytes;
}

pub queue_wire_pos : 0 < queue_layout.wire
unfolding queue_layout
queue_wire_pos = omega arith

abbrev pub queue_printer : Printer queue_layout
queue_printer = record {
  print = queue_bytes;
  IsRecord = IsQueue;
  wire_pos = queue_wire_pos;
  length-print = length-queue_bytes;
  copy-print = copy-queue_bytes;
}

pub route_wire_pos : 0 < route_layout.wire
unfolding route_layout
route_wire_pos = omega arith

abbrev pub route_printer : Printer route_layout
route_printer = record {
  print = route_bytes;
  IsRecord = IsRoute;
  wire_pos = route_wire_pos;
  length-print = length-route_bytes;
  copy-print = copy-route_bytes;
}

pub route_key_wire_pos : 0 < route_key_layout.wire
unfolding route_key_layout
route_key_wire_pos = omega arith

abbrev pub route_key_printer : Printer route_key_layout
route_key_printer = record {
  print = route_key_bytes;
  IsRecord = IsRouteKey;
  wire_pos = route_key_wire_pos;
  length-print = length-route_key_bytes;
  copy-print = copy-route_key_bytes;
}

pub channel_wire_pos : 0 < channel_layout.wire
unfolding channel_layout
channel_wire_pos = omega arith

abbrev pub channel_printer : Printer channel_layout
channel_printer = record {
  print = channel_bytes;
  IsRecord = IsChannel;
  wire_pos = channel_wire_pos;
  length-print = length-channel_bytes;
  copy-print = copy-channel_bytes;
}
