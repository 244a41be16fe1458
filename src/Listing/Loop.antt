-- ===== src/Listing/Loop.antt =====
-- The loop over the records of a response (src/emq.c), when the allocator does not fail: over whole
-- records, and over a body that ends within one.
use mathlib.Core.List.{reverse, reverse_aux}
use libemq.Base.{
  zero, suc, refl, ℕ, true, [], ◌∷◌, List, ◌++◌, All, length, ◌≡◌, ◌*◌, ◌<◌, ◌+◌, arith, ◌≤◌, ltb,
  length-append, drop, le→ltb_false, ◌∙◌, ◌^◌, append_assoc, ◌%◌, drop-add, length-drop,
  drop-append, ap, sym, suc, ◌-◌, false, some, append-nil,
}
use libemq.System.{System, Posix, Ample, Reliable}
use libemq.Listing.{
  Layout, add_value, add_record, copy_record, records_loop, read_list, list_struct_size,
}
use libemq.Listing.Records.{Printer}
use libemq.Client.{State, fault}
use libemq.Message.Blocks.{Allocates, allocate-provides, read_bytes-Takes}
use libemq.Subscription.{list_node_size}
use libemq.Protocol.{ResponseHeader}
use libemq.Network.Takes.{Takes}

module _ {A : Type 0} {l : Layout A} (printer : Printer l) where
  -- The bytes of a list response.
  unfoldable pub print_all : List A → List ℕ
  print_all [] = []
  print_all (a ∷ as_) = printer.print a ++ print_all as_

  pub length-print_all :
      (as_ : List A)
      → All (λ a. printer.IsRecord a) as_
      → length (print_all as_) ≡ length as_ * l.wire
  unfolding print_all
  length-print_all [] h = omega arith
  length-print_all (a ∷ as_) (h, hs) =
      let len = length-append (printer.print a) (print_all as_) in
      let one = printer.length-print a h in let more = length-print_all as_ hs in grind (arith)

module _ {World : Type 0} {sys : System World} (posix : Posix sys) (ample : Ample sys) {A : Type 0}
    (l : Layout A) where
  add_value-Allocates :
      (x : A) (xs : List A) (s : State World) → Allocates posix (x ∷ xs) (add_value sys l x xs) s
  unfolding add_value
  add_value-Allocates x xs s =
      let (node, w, e, out, left) = allocate-provides posix ample list_node_size s in
      (w, rw e refl, out, left)

  add_record-Allocates :
      (buffer : List ℕ) (i : ℕ) (xs : List A) (s : State World)
      → i + l.wire ≤ length buffer
      → Allocates posix (l.copy (drop i buffer) ∷ xs) (add_record sys l buffer i xs) s
  unfolding add_record copy_record
  add_record-Allocates buffer i xs s room =
      let (block, w, e, out, left) = allocate-provides posix ample l.block s in
      let (w', e', out', left') =
        add_value-Allocates (l.copy (drop i buffer)) xs (record { client = s.client; world = w }) in
      (
        w',
        rw (e, le→ltb_false (length buffer) (i + l.wire) room, e') refl,
        out' ∙ out,
        left' ∙ left,
      )

  add_record-fault :
      (buffer : List ℕ) (i : ℕ) (xs : List A) (s : State World)
      → length buffer < i + l.wire
      → add_record sys l buffer i xs s ≡ fault
  unfolding add_record copy_record
  add_record-fault buffer i xs s short =
      let (block, w, e, out, left) = allocate-provides posix ample l.block s in
      let test : ltb (length buffer) (i + l.wire) ≡ true = ground arith in rw (e, test) refl

module _ {World : Type 0} {sys : System World} (posix : Posix sys) (ample : Ample sys) {A : Type 0}
    {l : Layout A} (printer : Printer l) where
  -- Where the loop stands: at `i`, with the records `as_` and then `tail` before it.
  pub record Stands (i : ℕ) (buffer : List ℕ) (as_ : List A) (tail : List ℕ) : Type 0 where
    pub within : i ≤ length buffer
    pub ahead : drop i buffer ≡ print_all printer as_ ++ tail
    pub small : length buffer < 2 ^ 31

  module _ {i : ℕ} {buffer : List ℕ} {a : A} {as_ : List A} {tail : List ℕ} (h : printer.IsRecord a)
      (at : Stands i buffer (a ∷ as_) tail) where
    -- The next record fits, and is the one that was written.
    record_room : i + l.wire ≤ length buffer
    unfolding print_all
    record_room = omega (
      arith,
      length-drop i buffer,
      ap length at.ahead,
      printer.length-print a h,
      length-append (printer.print a ++ print_all printer as_) tail,
      length-append (printer.print a) (print_all printer as_),
      at.within,
    )

    record_copied : l.copy (drop i buffer) ≡ a
    unfolding print_all
    record_copied =
        rw (at.ahead, append_assoc) (printer.copy-print a (print_all printer as_ ++ tail) h)

    no_wrap : (i + l.wire) % 2 ^ 32 ≡ i + l.wire
    no_wrap = omega (arith, record_room, at.small)

    Stands-next : Stands (i + l.wire) buffer as_ tail
    unfolding print_all
    Stands-next = record {
      within = record_room;
      ahead =
          drop-add i l.wire buffer
          ∙ rw (at.ahead, append_assoc)
              (drop-append l.wire (printer.print a) (print_all printer as_ ++ tail)
                (sym (printer.length-print a h)));
      small = at.small;
    }

  -- Over whole records the loop ends with the list of all of them.
  pub records_loop-Allocates :
      (k : ℕ) (i : ℕ) (buffer : List ℕ) (as_ xs : List A) (s : State World)
      → All (λ a. printer.IsRecord a) as_
      → Stands i buffer as_ []
      → length as_ < k
      → Allocates posix (reverse_aux as_ xs) (records_loop sys l k (length buffer) buffer i xs) s
  unfolding records_loop
  records_loop-Allocates zero i buffer as_ xs s hs at fuel = absurd (omega arith)
  records_loop-Allocates (suc k) i buffer [] xs s hs at fuel =
      let left : length buffer - i ≡ 0 =
        unfold print_all in omega (arith, length-drop i buffer, ap length at.ahead) in
      let over : ltb i (length buffer) ≡ false = le→ltb_false i (length buffer) (omega arith) in
      (s.world, rw over refl, refl, refl)
  records_loop-Allocates (suc k) i buffer (a ∷ as_) xs s (h, hs) at fuel =
      let room = record_room h at in
      let more : ltb i (length buffer) ≡ true = ground (arith, printer.wire_pos) in
      let (w, e, out, left) = add_record-Allocates posix ample l buffer i xs s room in
      let (w', e', out', left') =
        records_loop-Allocates k (i + l.wire) buffer as_ (a ∷ xs)
          (record { client = s.client; world = w }) hs (Stands-next h at) (omega arith) in
      (w', rw (more, e, record_copied h at, no_wrap h at, e') refl, out' ∙ out, left' ∙ left)

  -- A body that ends within a record leads the copies past the buffer.
  pub records_loop-fault :
      (k : ℕ) (i : ℕ) (buffer : List ℕ) (as_ xs : List A) (tail : List ℕ) (s : State World)
      → All (λ a. printer.IsRecord a) as_
      → Stands i buffer as_ tail
      → 0 < length tail
      → length tail < l.wire
      → length as_ < k
      → records_loop sys l k (length buffer) buffer i xs s ≡ fault
  unfolding records_loop
  records_loop-fault zero i buffer as_ xs tail s hs at some_left few fuel = absurd (omega arith)
  records_loop-fault (suc k) i buffer [] xs tail s hs at some_left few fuel =
      let left : length buffer - i ≡ length tail =
        unfold print_all in omega (arith, length-drop i buffer, ap length at.ahead) in
      let more : ltb i (length buffer) ≡ true = ground arith in
      rw (more, add_record-fault posix ample l buffer i xs s (omega arith)) refl
  records_loop-fault (suc k) i buffer (a ∷ as_) xs tail s (h, hs) at some_left few fuel =
      let room = record_room h at in
      let more : ltb i (length buffer) ≡ true = ground (arith, printer.wire_pos) in
      let (w, e, out, left) = add_record-Allocates posix ample l buffer i xs s room in
      rw (more, e, record_copied h at, no_wrap h at)
        (records_loop-fault k (i + l.wire) buffer as_ (a ∷ xs) tail
          (record { client = s.client; world = w }) hs (Stands-next h at) some_left few
          (omega arith))

module _ {World : Type 0} {sys : System World} {posix : Posix sys} (works : Reliable posix)
    (ample : Ample sys) {A : Type 0} {l : Layout A} (printer : Printer l) (h : ResponseHeader)
    (as_ : List A) (valid : All (λ a. printer.IsRecord a) as_) where
  records_loop-all :
      (bodylen : ℕ) (s : State World)
      → bodylen ≡ length (print_all printer as_)
      → bodylen < 2 ^ 31
      → Allocates posix
          (reverse as_)
          (records_loop sys l (suc bodylen) bodylen (print_all printer as_) 0 [])
          s
  records_loop-all bodylen s len small =
      let bs = print_all printer as_ in
      let size = length-print_all printer as_ valid in
      let fuel : length as_ < suc (length bs) = grind (arith, printer.wire_pos) in
      rw len (
        records_loop-Allocates posix ample printer (suc (length bs)) 0 bs as_ [] s valid
          (record { within = omega arith; ahead = rw append-nil refl; small = omega arith }) fuel)

  records_loop-short :
      (tail : List ℕ) (bodylen : ℕ) (s : State World)
      → 0 < length tail
      → length tail < l.wire
      → bodylen ≡ length (print_all printer as_ ++ tail)
      → bodylen < 2 ^ 31
      → records_loop sys l (suc bodylen) bodylen (print_all printer as_ ++ tail) 0 [] s ≡ fault
  records_loop-short tail bodylen s some_left few len small =
      let bs = print_all printer as_ ++ tail in
      let size = length-print_all printer as_ valid in
      let whole = length-append (print_all printer as_) tail in
      let fuel : length as_ < suc (length bs) = grind (arith, printer.wire_pos) in
      rw len (
        records_loop-fault posix ample printer (suc (length bs)) 0 bs as_ [] tail s valid
          (record { within = omega arith; ahead = refl; small = omega arith }) some_left few fuel)

  -- The list of a body that holds exactly these records.
  pub read_list-Takes :
      (rest : List ℕ) (s : State World)
      → h.bodylen ≡ length (print_all printer as_)
      → h.bodylen < 2 ^ 31
      → posix.incoming s.client.fd s.world ≡ print_all printer as_ ++ rest
      → Takes posix (some (reverse as_)) rest s (read_list sys l h s)
  unfolding read_list
  read_list-Takes rest s len small e =
      let bs = print_all printer as_ in
      let (b, w, r, out, left) = allocate-provides posix ample h.bodylen s in
      let (w', r', out', left') =
        read_bytes-Takes works h.bodylen bs rest (record { client = s.client; world = w }) (sym len)
          small (left ∙ e) in
      let (b'', w'', r'', out'', left'') =
        allocate-provides posix ample list_struct_size (record { client = s.client; world = w' }) in
      let (v, q, out_v, left_v) =
        records_loop-all h.bodylen (record { client = s.client; world = w'' }) len small in
      (v, rw (r, r', r'', q) refl, out_v ∙ (out'' ∙ (out' ∙ out)), left_v ∙ (left'' ∙ left'))

  -- A body that ends within a record is a fault.
  pub read_list-fault :
      (tail rest : List ℕ) (s : State World)
      → 0 < length tail
      → length tail < l.wire
      → h.bodylen ≡ length (print_all printer as_ ++ tail)
      → h.bodylen < 2 ^ 31
      → posix.incoming s.client.fd s.world ≡ (print_all printer as_ ++ tail) ++ rest
      → read_list sys l h s ≡ fault
  unfolding read_list
  read_list-fault tail rest s some_left few len small e =
      let bs = print_all printer as_ ++ tail in
      let (b, w, r, out, left) = allocate-provides posix ample h.bodylen s in
      let (w', r', out', left') =
        read_bytes-Takes works h.bodylen bs rest (record { client = s.client; world = w }) (sym len)
          small (left ∙ e) in
      let (b'', w'', r'', out'', left'') =
        allocate-provides posix ample list_struct_size (record { client = s.client; world = w' }) in
      rw
        (
          r,
          r',
          r'',
          records_loop-short tail h.bodylen (record { client = s.client; world = w'' }) some_left
              few len small,
        )
        refl
