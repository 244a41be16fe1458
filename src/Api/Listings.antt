-- ===== src/Api/Listings.antt =====
-- The runs of the functions of src/emq.c that return a list, on a connection that works.
use libemq.Api.Verdicts.{accepted, judge-accepted, judge-reading_mini}
use mathlib.Core.List.{reverse}
use libemq.Base.{◌∙◌, refl, ℕ, none, some, Option, List, ◌≡◌, All, length, ◌<◌, ◌^◌, ◌++◌}
use libemq.Api.Lists.{user_list, queue_list, route_list, route_keys, channel_list, list_query}
use libemq.System.{System, Posix, Reliable, Ample}
use libemq.Listing.{
  Layout, read_list, User, user_layout, Queue, queue_layout, Route, route_layout, RouteKey,
  route_key_layout, Channel, channel_layout,
}
use libemq.Listing.Records.{
  Printer, user_printer, queue_printer, route_printer, route_key_printer, channel_printer,
}
use libemq.Packet.Calls.{Call, build, command}
use libemq.Client.{Prog, State, fault}
use libemq.Protocol.{ResponseHeader, response_header_bytes}
use libemq.Packet.Buffer.{IsValid}
use libemq.Wire.{Text}
use libemq.Packet.RoundTrip.{IsSendable, request_of}
use libemq.Protocol.Headers.{IsHeader}
use libemq.Api.Fetch.{message_verdict}
use libemq.Listing.Loop.{print_all, read_list-Takes, read_list-fault}
use libemq.Api.Ask.{Answers, unread, ask-fault, answer, ask-Answers}
use libemq.Packet.{check_response_header_mini}

-- The functions with their request, and how the server writes the records.
pub data Listing {World : Type 0} (sys : System World)
    : (A : Type 0) (l : Layout A) → Printer l → Call → Prog World (Option (List A)) → Type 1 where
  user_lists : Listing sys User user_layout user_printer Call.user_list (user_list sys)
  queue_lists : Listing sys Queue queue_layout queue_printer Call.queue_list (queue_list sys)
  route_lists : Listing sys Route route_layout route_printer Call.route_list (route_list sys)
  route_keys_lists :
      (name : Text)
      → Listing sys RouteKey route_key_layout route_key_printer
          (Call.route_keys name)
          (route_keys sys name)
  channel_lists :
      Listing sys Channel channel_layout channel_printer Call.channel_list (channel_list sys)

Listing-list_query :
    {World : Type 0} (sys : System World) {A : Type 0} {l : Layout A} {printer : Printer l}
    {call : Call} {run : Prog World (Option (List A))}
    → Listing sys A l printer call run
    → run ≡ list_query sys l (build sys call) (command call)
unfolding user_list queue_list route_list route_keys channel_list build command
Listing-list_query sys user_lists = refl
Listing-list_query sys queue_lists = refl
Listing-list_query sys route_lists = refl
Listing-list_query sys (route_keys_lists name) = refl
Listing-list_query sys channel_lists = refl

module _ {World : Type 0} {sys : System World} {posix : Posix sys} (works : Reliable posix)
    (ample : Ample sys) {A : Type 0} {l : Layout A} {printer : Printer l} {call : Call}
    {run : Prog World (Option (List A))} (h : ResponseHeader) (as_ : List A) where
  -- The five functions that return a list, on a connection that works on which a header that counts
  -- them, the records as the server writes them, less than 2^31 bytes in all, and more come next,
  -- and with an allocator that does not run out: the function sends exactly its request. If the
  -- header is the success of the command it reads all the records and returns the list of them,
  -- the last one first; if not, it reads the header alone, and returns `NULL` with the error that
  -- the header calls for.
  pub list-Answers :
      (rest : List ℕ) (s : State World)
      → Listing sys A l printer call run
      → IsValid s.client
      → IsSendable call
      → IsHeader h
      → All (λ a. printer.IsRecord a) as_
      → h.bodylen ≡ length (print_all printer as_)
      → h.bodylen < 2 ^ 31
      → posix.incoming s.client.fd s.world
        ≡ response_header_bytes h ++ (print_all printer as_ ++ rest)
      → let v = message_verdict (command call) h in
        Answers works
          (request_of call s.client.noack)
          (unread (print_all printer as_) rest v)
          (answer (some (reverse as_)) none v)
          v
          s
          (run s)
  list-Answers rest s listing valid ok fits records len small e =
      rw (Listing-list_query sys listing) (
        unfold list_query in
        ask-Answers works call (λ h'. check_response_header_mini h' (command call)) none
          (some (reverse as_)) (read_list sys l) h (print_all printer as_) rest s
          (message_verdict (command call) h) (judge-reading_mini (command call) h) valid ok fits e
          (λ c w same left.
            read_list-Takes works ample printer h as_ records rest
              (record { client = c; world = w }) len small left))

  -- If the body of an accepted response, of less than 2^31 bytes, ends within a record, each of the
  -- five functions that return a list, on a connection that works and with an allocator that does
  -- not run out, reads past the buffer that it has allocated for the body.
  pub list-fault :
      (tail rest : List ℕ) (s : State World)
      → Listing sys A l printer call run
      → IsValid s.client
      → IsSendable call
      → IsHeader h
      → All (λ a. printer.IsRecord a) as_
      → message_verdict (command call) h ≡ accepted
      → 0 < length tail
      → length tail < l.wire
      → h.bodylen ≡ length (print_all printer as_ ++ tail)
      → h.bodylen < 2 ^ 31
      → posix.incoming s.client.fd s.world
        ≡ response_header_bytes h ++ ((print_all printer as_ ++ tail) ++ rest)
      → run s ≡ fault
  list-fault tail rest s listing valid ok fits records good some_left few len small e =
      let (fit, good') = judge-accepted _ _ _ (judge-reading_mini (command call) h ∙ good) in
      rw (Listing-list_query sys listing) (
        unfold list_query in
        ask-fault works call (λ h'. check_response_header_mini h' (command call)) none none
          (read_list sys l) h (print_all printer as_ ++ tail) rest s valid ok fits e fit good'
          (λ c w same left.
            read_list-fault works ample printer h as_ records tail rest
              (record { client = c; world = w }) some_left few len small left))
