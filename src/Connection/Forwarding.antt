-- ===== src/Connection/Forwarding.antt =====
-- rtsp-2/src/protocol/connection/receiver.rs: `ForwardingReceiver`, which hands requests to the request
-- handler in the order of their sequence numbers.
pub mod Order
pub mod Keeping
pub mod Window
use rtsp_rs.Prelude.{
  ℕ, zero, suc, ◌+◌, ◌%◌, ◌^◌, List, [], ◌∷◌, ◌++◌, leb, ltb, if◌then◌else◌, Option, none, some,
  Result, ok, err, Bool, true, false, length,
}
use rtsp_rs.Header.CSeq.{CSeq, wrapping_increment, sub}
use rtsp_rs.Header.CSeq
use rtsp_rs.Header.Map.{HeaderMaps, typed_get}
use rtsp_rs.Header.Name
use rtsp_rs.Request.{Request}
use rtsp_rs.Connection.{Poll, ready, not_ready, failed, SendAnswer, accepted, full, disconnected}
use rtsp_rs.Connection.Table.{Table, lookup, remove}

-- `RequestReceiverError`.
pub data RequestReceiverError : Type 0 where
  bad_request cseq_difference_too_large : RequestReceiverError

-- Of the channel to the request handler the state keeps what the channel has accepted so far.
pub record ForwardingReceiver (R : Type 0) : Type 0 where
  pub buffered_requests : Table R
  pub incoming_sequence_number : Option CSeq
  pub request_buffer_size : ℕ
  pub tx_incoming_request : List (CSeq × R)

module _ {R : Type 0} where
  unfoldable pub is_full : ForwardingReceiver R → Bool
  is_full f = leb f.request_buffer_size (length f.buffered_requests)

  unfoldable pub has_requests_ready : ForwardingReceiver R → Bool
  has_requests_ready f = elim f.incoming_sequence_number [
    | some n ↦ elim (lookup n f.buffered_requests) [ some _ ↦ true | none ↦ false ]
    | none ↦ false
  ]

  -- `match self.incoming_sequence_number`.
  number_or_default : Option CSeq → CSeq → ForwardingReceiver R → CSeq × ForwardingReceiver R
  number_or_default (some n) cseq f = (n, f)
  number_or_default none cseq f = (cseq, record f { incoming_sequence_number = some cseq })

  unfoldable pub incoming_sequence_number_or_default :
      CSeq → ForwardingReceiver R → CSeq × ForwardingReceiver R
  unfolding number_or_default
  incoming_sequence_number_or_default cseq f = number_or_default f.incoming_sequence_number cseq f

  unfoldable pub new : ℕ → ForwardingReceiver R
  new size = record {
    buffered_requests = [];
    incoming_sequence_number = none;
    request_buffer_size = size;
    tx_incoming_request = [];
  }

  -- The window and the buffer of `handle_request`, for the number of the request and the expected one.
  buffer_request :
      CSeq
      → R
      → CSeq × ForwardingReceiver R
      → Result (Unit {0}) RequestReceiverError × ForwardingReceiver R
  buffer_request cseq request (n, f) =
      if ltb (f.request_buffer_size % 2 ^ 32) (sub cseq n)
      then (err cseq_difference_too_large, f)
      else elim (lookup cseq f.buffered_requests) [
        | some _ ↦ (err bad_request, f)
        | none ↦ (ok tt, record f { buffered_requests = (cseq, request) ∷ f.buffered_requests })
      ]

  -- The three ways in which a turn of the loop of `poll` leaves the request that it has removed.
  abbrev pub handed_over : CSeq → R → ForwardingReceiver R → ForwardingReceiver R
  handed_over n request f = record f {
    buffered_requests = remove n f.buffered_requests;
    tx_incoming_request = f.tx_incoming_request ++ ((n, request) ∷ []);
  }

  abbrev pub put_back : CSeq → R → ForwardingReceiver R → ForwardingReceiver R
  put_back n request f = record f {
    buffered_requests = (n, request) ∷ remove n f.buffered_requests;
    incoming_sequence_number = some n;
  }

  abbrev pub dropped : CSeq → ForwardingReceiver R → ForwardingReceiver R
  dropped n f = record f { buffered_requests = remove n f.buffered_requests }

  -- The `while` of `poll`, on fuel. `channel k` is the answer to the send number `k` of this poll.
  forward :
      (ℕ → SendAnswer)
      → ℕ
      → ℕ
      → CSeq
      → ForwardingReceiver R
      → Option (Poll (Unit {0}) (Unit {0}) × ForwardingReceiver R)
  forward channel zero k n f = none
  forward channel (suc fuel) k n f = elim (lookup n f.buffered_requests) [
    | none ↦ some (ready tt, record f { incoming_sequence_number = some n })
    | some request ↦ elim (channel k) [
      | accepted ↦ forward channel fuel (k + 1) (wrapping_increment n) (handed_over n request f)
      | full ↦ some (not_ready, put_back n request f)
      | disconnected ↦ some (failed tt, dropped n f)
    ]
  ]

  poll_from :
      (ℕ → SendAnswer)
      → Option CSeq
      → ForwardingReceiver R
      → Option (Poll (Unit {0}) (Unit {0}) × ForwardingReceiver R)
  poll_from channel none f = some (ready tt, f)
  poll_from channel (some n) f = forward channel (suc (length f.buffered_requests)) 0 n f

  unfoldable pub poll :
      (ℕ → SendAnswer)
      → ForwardingReceiver R
      → Option (Poll (Unit {0}) (Unit {0}) × ForwardingReceiver R)
  unfolding poll_from forward
  poll channel f = poll_from channel f.incoming_sequence_number f

abbrev pub RequestReceiver : Type 0 → Type 0 → Type 0 → Type 0
RequestReceiver Body Map Uri = ForwardingReceiver (Request Body Map Uri)

module _ {Body Map Uri : Type 0} (maps : HeaderMaps Map) where
  abbrev pub cseq_of : Request Body Map Uri → Option CSeq
  cseq_of request = typed_get maps Name.cseq CSeq.decode request.headers

  -- `match request.headers().typed_get::<CSeq>()`.
  handle_numbered :
      Option CSeq
      → Request Body Map Uri
      → RequestReceiver Body Map Uri
      → Result (Unit {0}) RequestReceiverError × RequestReceiver Body Map Uri
  handle_numbered (some cseq) request f =
      buffer_request cseq request (incoming_sequence_number_or_default cseq f)
  handle_numbered none request f = (err bad_request, f)

  unfoldable pub handle_request :
      Request Body Map Uri
      → RequestReceiver Body Map Uri
      → Result (Unit {0}) RequestReceiverError × RequestReceiver Body Map Uri
  unfolding buffer_request incoming_sequence_number_or_default handle_numbered
  handle_request request f = handle_numbered (cseq_of request) request f
