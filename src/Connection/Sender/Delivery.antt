-- ===== src/Connection/Sender/Delivery.antt =====
-- rtsp-2/src/protocol/connection/sender.rs: the messages reach the sink, in order.
use rtsp_rs.Prelude.{
  ℕ, ◌+◌, List, [], ◌∷◌, ◌++◌, map, ◌≡◌, refl, sym, ap, append-nil, Option, none, some, Bool-cases,
  inl, inr,
}
use rtsp_rs.Connection.{Poll, ready, not_ready, failed}
use rtsp_rs.Connection.Sender.{
  SinkAnswer, taken, refused, error, Sender, World, try_ready, try_send_message, flush, write_loop,
  poll_write, write_and_close, poll_buffered, poll,
}

abbrev pub waiting : {A : Type 0} → Option A → List A
waiting none = []
waiting (some a) = a ∷ []

abbrev sender : {M : Type 0} → Option M → List M → List M → Sender M
sender buffered messages sink = record {
  buffered_message = buffered;
  rx_outgoing_message = messages;
  sink = sink;
}

module _ {M K : Type 0} (key : M → K) where
  -- What the messages say, from the first that was sent to the last in the channel.
  abbrev pub contents : Sender M → List K
  contents s =
      map key s.sink ++ (map key (waiting s.buffered_message) ++ map key s.rx_outgoing_message)

  map-snoc :
      (messages : List M) (message : M) (rest : List K)
      → map key (messages ++ (message ∷ [])) ++ rest ≡ map key messages ++ (key message ∷ rest)
  map-snoc [] message rest = refl
  map-snoc (m ∷ messages) message rest = ap (λ l. key m ∷ l) (map-snoc messages message rest)

try_ready-try_ready :
    {A B C S E : Type 0} (p : Poll A E × S) (f : S → Poll B E × S) (g : S → Poll C E × S)
    → try_ready (try_ready p f) g ≡ try_ready p (λ s. try_ready (f s) g)
unfolding try_ready
try_ready-try_ready (ready _, s) f g = refl
try_ready-try_ready (not_ready, s) f g = refl
try_ready-try_ready (failed e, s) f g = refl

module _ {M K E : Type 0} (key : M → K) where
  -- `l` is what the messages say: all of it is in the sink if the sender is done, and all but at most
  -- one message is there or in the channel if the sink has failed.
  abbrev pub Delivered : List K → Poll (Unit {0}) E × Sender M → Type 0
  Delivered l (ready _, s) = map key s.sink ≡ l
  Delivered l (not_ready, s) = contents key s ≡ l
  Delivered l (failed _, s) =
      (lost : Option K) × (map key s.sink ++ (waiting lost ++ map key s.rx_outgoing_message) ≡ l)

  Delivered-of :
      (l l' : List K) (p p' : Poll (Unit {0}) E × Sender M)
      → l ≡ l'
      → p ≡ p'
      → Delivered l' p'
      → Delivered l p
  Delivered-of l l' p p' e same d = rw (e, same) d

  sent-Delivered :
      (answer : SinkAnswer E) (message : M) (messages sink : List M)
      (rest : Sender M → Poll (Unit {0}) E × Sender M)
      → Delivered
          (map key (sink ++ (message ∷ [])) ++ map key messages)
          (rest (sender none messages (sink ++ (message ∷ []))))
      → Delivered
          (map key sink ++ (key message ∷ map key messages))
          (try_ready (try_send_message answer message (sender none messages sink)) rest)
  unfolding try_ready try_send_message
  sent-Delivered taken message messages sink rest d =
      Delivered-of _ _ _ _ (sym (map-snoc key sink message (map key messages))) refl d
  sent-Delivered refused message messages sink rest d = refl
  sent-Delivered (error e) message messages sink rest d = (some (key message), refl)

  -- The channel is empty.
  flushed-Delivered :
      (answer : Poll (Unit {0}) E) (sink : List M) (rest : Sender M → Poll (Unit {0}) E × Sender M)
      → Delivered (map key sink ++ []) (try_ready (flush answer, sender none [] sink) rest)
  unfolding flush try_ready
  flushed-Delivered (ready _) sink rest = refl
  flushed-Delivered not_ready sink rest = refl
  flushed-Delivered (failed e) sink rest = (none, refl)

  module _ (world : World M E) where
    done_writing : ℕ → List M → Sender M → Poll (Unit {0}) E × Sender M
    done_writing k messages s = try_ready (write_loop world k messages s) (λ s'. (world.close, s'))

    closed-Delivered :
        (answer : Poll (Unit {0}) E) (sink : List M)
        → Delivered (map key sink ++ []) (answer, sender none [] sink)
    closed-Delivered (ready _) sink = sym (append-nil (map key sink))
    closed-Delivered not_ready sink = refl
    closed-Delivered (failed e) sink = (none, refl)

    empty-Delivered :
        (k : ℕ) (sink : List M)
        → Delivered (map key sink ++ []) (done_writing k [] (sender none [] sink))
    unfolding done_writing write_loop try_ready
    empty-Delivered k sink = elim (Bool-cases world.ended) [
      | inl over ↦ rw over (closed-Delivered world.close sink)
      | inr going ↦ rw going (flushed-Delivered world.poll_complete sink _)
    ]

    write_loop-Delivered :
        (same_key : (message : M) → key (world.insert_date message) ≡ key message) (k : ℕ)
        (messages sink : List M)
        → Delivered
            (map key sink ++ map key messages)
            (done_writing k messages (sender none messages sink))
    unfolding done_writing write_loop
    write_loop-Delivered same_key k [] sink = empty-Delivered k sink
    write_loop-Delivered same_key k (message ∷ messages) sink =
        let stamped = world.insert_date message in
        let l : map key sink ++ (key message ∷ map key messages)
            ≡ map key sink ++ (key stamped ∷ map key messages) =
          ap (λ x. map key sink ++ (x ∷ map key messages)) (sym (same_key message)) in
        Delivered-of _ _ _ _ l (try_ready-try_ready _ _ _) (
          sent-Delivered (world.start_send k) stamped messages sink _
            (write_loop-Delivered same_key (k + 1) messages (sink ++ (stamped ∷ []))))

    fields-Delivered :
        (same_key : (message : M) → key (world.insert_date message) ≡ key message)
        (buffered : Option M) (messages sink : List M)
        → Delivered
            (contents key (sender buffered messages sink))
            (poll world (sender buffered messages sink))
    unfolding poll poll_buffered write_and_close poll_write done_writing
    fields-Delivered same_key none messages sink = write_loop-Delivered same_key 0 messages sink
    fields-Delivered same_key (some message) messages sink =
        sent-Delivered (world.start_send 0) message messages sink _
          (write_loop-Delivered same_key 1 messages (sink ++ (message ∷ [])))

  -- Let `l` be what the messages say that the sink has taken, that is buffered, and that wait in the
  -- channel, in this order, where what a message says (`key`) does not depend on its header `Date`.
  -- After a poll that is not ready, `l` is again what they say, in the same order; after one that is
  -- done, the sink alone has it; and after one that fails, at most one message is missing, behind those
  -- that the sink has taken and before those in the channel.
  pub poll-Delivered :
      (world : World M E) (s : Sender M)
      → ((message : M) → key (world.insert_date message) ≡ key message)
      → Delivered (contents key s) (poll world s)
  poll-Delivered world s same_key =
      fields-Delivered world same_key s.buffered_message s.rx_outgoing_message s.sink
